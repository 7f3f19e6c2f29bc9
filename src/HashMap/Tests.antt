-- ===== src/HashMap/Tests.antt =====
-- The hash map of hashmap.c on short keys.
use mangl.Prelude.{
  ℕ, ◌<◌, ◌≤◌, ◌≡◌, refl, sym, ap, subst, Bool, true, false, Option, none, some, arith, ◌*◌, ◌^◌,
  if◌then◌else◌, Bytes,
}
use mangl.Text.{codes, same_text, is_prefix}
use mangl.Run.{Run, done, exited, fault, ◌>>=◌}
use mangl.Crc.{crc32}
use mangl.HashMap.{
  HashMap, mix, new_map, hashmap_new, hashmap_put, hashmap_get, hashmap_remove, hashmap_length,
}
use mangl.HashMap.Probe.{IsValid}
use mangl.HashMap.Remove.{hashmap_put-remove}
use mangl.HashMap.Map.{hashmap_get-put, new_map-IsValid, hashmap_new-IsValid}

abbrev empty_map : HashMap ℕ
empty_map = new_map

abbrev put : HashMap ℕ → Bytes → ℕ → Run (HashMap ℕ)
put m key value = hashmap_put 1000 2 m key value >>= λ r. done r.0

put_twice :
    (put empty_map (codes "ls(1)") 5 >>= λ m.
    put m (codes "cp(1)") 6 >>= λ m. hashmap_get m (codes "ls(1)"))
    ≡ done (some 5)
unfolding new_map hashmap_put hashmap_get crc32 mix is_prefix
put_twice = refl

put_over :
    (put empty_map (codes "ls(1)") 5 >>= λ m.
    put m (codes "ls(1)") 6 >>= λ m. done (hashmap_length m))
    ≡ done 1
unfolding new_map hashmap_put hashmap_length crc32 mix is_prefix
put_over = refl

remove_one :
    (put empty_map (codes "ls(1)") 5 >>= λ m.
    hashmap_remove m (codes "ls(1)") >>= λ r. hashmap_get r.0 (codes "ls(1)"))
    ≡ done none
unfolding new_map hashmap_put hashmap_remove hashmap_get crc32 mix is_prefix
remove_one = refl

room : 1000 < empty_map.table_size * 2 ^ 2
unfolding new_map
room = omega arith

hashmap_get-put_example :
    (r : HashMap ℕ × Bool) × (hashmap_put 1000 2 empty_map (codes "ls(1)") 5 ≡ done r)
    × IsValid r.0
    × (empty_map.table_size ≤ r.0.table_size)
    × (r.1 ≡ true
        → (k : Bytes)
        → (a : Option ℕ) × (hashmap_get empty_map k ≡ done a)
          × (hashmap_get r.0 k ≡ done (if same_text (codes "ls(1)") k then some 5 else a)))
hashmap_get-put_example =
    hashmap_get-put 1000 2 empty_map (codes "ls(1)") 5 (new_map-IsValid {V = ℕ}).0 room

hashmap_new-IsValid_example :
    ((b : Bool) → hashmap_new {V = ℕ} false b ≡ none)
    × ((b : Bool) → hashmap_new {V = ℕ} b false ≡ none)
    × ((m : HashMap ℕ) × (hashmap_new true true ≡ some m)
        × IsValid m
        × (hashmap_length m ≡ 0)
        × ((k : Bytes) → hashmap_get m k ≡ done none))
hashmap_new-IsValid_example = hashmap_new-IsValid {V = ℕ}

map_of : Run (HashMap ℕ × Bool) → HashMap ℕ
map_of (done r) = r.0
map_of (exited n) = empty_map
map_of fault = empty_map

-- A map with one key.
abbrev one_key : HashMap ℕ
one_key = map_of (hashmap_put 1000 2 empty_map (codes "ls(1)") 5)

one_key-IsValid : IsValid one_key
unfolding map_of
one_key-IsValid =
    let (r, ran, valid, grows, lookups) =
      hashmap_get-put 1000 2 empty_map (codes "ls(1)") 5 (new_map-IsValid {V = ℕ}).0 room in
    subst IsValid (ap map_of (sym ran)) valid

one_key_got : hashmap_get one_key (codes "ls(1)") ≡ done (some 5)
unfolding map_of new_map hashmap_put hashmap_get crc32 mix is_prefix
one_key_got = refl

hashmap_put-remove_example :
    (m' : HashMap ℕ) × (r : HashMap ℕ) × (hashmap_remove one_key (codes "ls(1)") ≡ done (m', true))
    × ((k : Bytes)
        → hashmap_get m' k
          ≡ (if same_text (codes "ls(1)") k then done none else hashmap_get one_key k))
    × (hashmap_put 1000 2 m' (codes "ls(1)") 7 ≡ done (r, true))
    × IsValid r
    × (hashmap_length r ≡ hashmap_length one_key)
    × (r.table_size ≡ one_key.table_size)
    × ((k : Bytes)
        → (a : Option ℕ) × (hashmap_get one_key k ≡ done a)
          × (hashmap_get r k ≡ done (if same_text (codes "ls(1)") k then some 7 else a)))
hashmap_put-remove_example =
    hashmap_put-remove 1000 2 one_key (codes "ls(1)") 7 5 one_key-IsValid one_key_got
