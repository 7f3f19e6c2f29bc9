-- ===== src/HashMap.antt =====
-- The hash map of hashmap.c: open addressing with eight probes, from byte strings to values.
pub mod Keys
pub mod Probe
pub mod Write
pub mod Hash
pub mod Rehash
pub mod Put
pub mod Map
pub mod Freed
pub mod Remove
mod Tests
use Prim.Native.Nat.{bit_xor}
use mangl.Prelude.{
  ℕ, zero, suc, ◌+◌, ◌-◌, ◌*◌, ◌/◌, ◌%◌, ◌^◌, Bool, true, false, not, ◌&&◌, ◌||◌, Option, none,
  some, List, [], ◌∷◌, ◌++◌, ltb, leb, ◌==◌, if◌then◌else◌, length, map, get_elem?, set, take, drop,
  replicate, Bytes,
}
use mangl.Text.{is_prefix}
use mangl.Run.{Run, done, fault, deref, ◌>>=◌}
use mangl.Crc.{crc32}

-- `hashmap_element`. A free element has no value: `value` is read in an element in use only.
pub record Element (V : Type 0) : Type 0 where
  pub key_static : Bytes
  pub key_dynamic : Option Bytes
  pub key_length : ℕ
  pub in_use : Bool
  pub value : Option V

-- `hashmap_map`, with `data` of `table_size` elements.
pub record HashMap (V : Type 0) : Type 0 where
  pub table_size : ℕ
  pub size : ℕ
  pub elements : List (Element V)

abbrev pub initial_size : ℕ
initial_size = 256

abbrev pub linear_probe_length : ℕ
linear_probe_length = 8

abbrev pub key_static_length : ℕ
key_static_length = 32

abbrev pub uint32 : ℕ → ℕ
uint32 n = n % 2 ^ 32

-- What `hashmap_hash_int` does to the checksum, before the remainder by the table's size.
unfoldable pub mix : ℕ → ℕ
mix key0 =
    let key1 = uint32 (key0 + uint32 (key0 * 2 ^ 12)) in
    let key2 = bit_xor key1 (key1 / 2 ^ 22) in
    let key3 = uint32 (key2 + uint32 (key2 * 2 ^ 4)) in
    let key4 = bit_xor key3 (key3 / 2 ^ 9) in
    let key5 = uint32 (key4 + uint32 (key4 * 2 ^ 10)) in
    let key6 = bit_xor key5 (key5 / 2 ^ 2) in
    let key7 = uint32 (key6 + uint32 (key6 * 2 ^ 7)) in
    let key8 = bit_xor key7 (key7 / 2 ^ 12) in uint32 (key8 / 2 ^ 3 * 2654435761)

module _ {V : Type 0} where
  -- What `calloc` gives.
  abbrev pub free_element : Element V
  free_element = record {
    key_static = replicate key_static_length 0;
    key_dynamic = none;
    key_length = 0;
    in_use = false;
    value = none;
  }

  -- A long key stands behind a pointer.
  unfoldable pub get_key : Element V → Run Bytes
  get_key el =
      if ltb key_static_length el.key_length then deref el.key_dynamic else done el.key_static

  -- Whether `key_compare` returns 0; the key is read only if the lengths agree.
  unfoldable pub key_compare : Element V → Bytes → Run Bool
  unfolding get_key
  key_compare el key =
      if el.key_length == length key
      then (get_key el >>= λ stored. done (is_prefix key stored))
      else done false

  unfoldable pub clear_element : Element V → Element V
  clear_element el = record el {
    in_use = false;
    value = none;
    key_dynamic = if ltb key_static_length el.key_length then none else el.key_dynamic;
    key_length = 0;
  }

  -- The writes of `hashmap_put` to the element that it has found.
  unfoldable pub write_element : Element V → Bytes → V → Element V
  write_element el key value = record {
    value = some value;
    key_length = length key;
    key_dynamic =
        if ltb key_static_length (length key)
        then some key
        else if ltb key_static_length el.key_length
        then none
        else el.key_dynamic;
    key_static =
        if ltb key_static_length (length key)
        then el.key_static
        else key ++ drop (length key) el.key_static;
    in_use = true;
  }

  -- The map that `hashmap_new` fills in.
  unfoldable pub new_map : HashMap V
  new_map = record {
    table_size = initial_size;
    size = 0;
    elements = replicate initial_size free_element;
  }

  -- Whether the two calls of `calloc` have memory; `none` is NULL, all that was allocated freed.
  unfoldable pub hashmap_new : Bool → Bool → Option (HashMap V)
  hashmap_new map_memory data_memory = if map_memory && data_memory then some new_map else none

  unfoldable pub hashmap_hash_int : HashMap V → Bytes → Run ℕ
  hashmap_hash_int m key = crc32 key >>= λ c. done (mix c % m.table_size)

  -- `m->data[curr]`, in use and with the key.
  unfoldable pub has_key : Element V → Bytes → Run Bool
  unfolding key_compare
  has_key el key = if el.in_use then key_compare el key else done false

  abbrev pub next : HashMap V → ℕ → ℕ
  next m curr = (curr + 1) % m.table_size

  -- The probes of `hashmap_hash`, with `rounds` left; `none` is MAP_FULL.
  unfoldable pub find_place : HashMap V → Bytes → ℕ → ℕ → Run (Option ℕ)
  unfolding has_key
  find_place m key zero curr = done none
  find_place m key (suc rounds) curr = deref (get_elem? m.elements curr) >>= λ el.
      has_key el key >>= λ same. elim (not el.in_use || same) [
        | true ↦ done (some curr)
        | false ↦ find_place m key rounds (next m curr)
      ]

  unfoldable pub hashmap_hash : HashMap V → Bytes → Run (Option ℕ)
  unfolding find_place hashmap_hash_int
  hashmap_hash m key =
      if leb (m.table_size / 2) m.size
      then done none
      else hashmap_hash_int m key >>= find_place m key linear_probe_length

  -- `hashmap_put` from where it has found an index.
  unfoldable pub write_at : HashMap V → ℕ → Bytes → V → Run (HashMap V)
  unfolding write_element
  write_at m index key value = deref (get_elem? m.elements index) >>= λ el. done (record m {
    elements = set m.elements index (write_element el key value);
    size = if el.in_use then m.size else m.size + 1;
  })

  -- The loop of `hashmap_rehash` over the old elements, with `put` for its call of `hashmap_put`.
  -- `false` is MAP_OMEM.
  unfoldable pub rehash_elements :
      (HashMap V → Bytes → V → Run (HashMap V × Bool))
      → List (Element V)
      → HashMap V
      → Run (HashMap V × Bool)
  unfolding get_key
  rehash_elements put [] m = done (m, true)
  rehash_elements put (el ∷ els) m =
      if el.in_use
      then (get_key el >>= λ key. deref el.value >>= λ value.
          put m (take el.key_length key) value >>= λ r. elim r.1 [
            | true ↦ rehash_elements put els r.0
            | false ↦ done (r.0, false)
          ])
      else rehash_elements put els m

  -- `calloc` has room for up to `memory` elements.
  unfoldable pub hashmap_rehash :
      ℕ → (HashMap V → Bytes → V → Run (HashMap V × Bool)) → HashMap V → Run (HashMap V × Bool)
  unfolding rehash_elements
  hashmap_rehash memory put m =
      if leb (2 * m.table_size) memory
      then rehash_elements put m.elements (record {
        table_size = 2 * m.table_size;
        size = 0;
        elements = replicate (2 * m.table_size) free_element;
      })
      else done (m, false)

  -- Each round of the `while`, and each `hashmap_put` within, doubles the table: `fuel` doublings.
  unfoldable pub hashmap_put : ℕ → ℕ → HashMap V → Bytes → V → Run (HashMap V × Bool)
  unfolding hashmap_hash write_at hashmap_rehash
  hashmap_put memory zero m key value = hashmap_hash m key >>= λ r. elim r [
    | some index ↦ write_at m index key value >>= λ m'. done (m', true)
    | none ↦ if leb (2 * m.table_size) memory then fault else done (m, false)
  ]
  hashmap_put memory (suc fuel) m key value = hashmap_hash m key >>= λ r. elim r [
    | some index ↦ write_at m index key value >>= λ m'. done (m', true)
    | none ↦ hashmap_rehash memory (hashmap_put memory fuel) m >>= λ r. elim r.1 [
      | true ↦ hashmap_put memory fuel r.0 key value
      | false ↦ done (r.0, false)
    ]
  ]

  unfoldable pub get_probe : HashMap V → Bytes → ℕ → ℕ → Run (Option V)
  unfolding has_key
  get_probe m key zero curr = done none
  get_probe m key (suc rounds) curr = deref (get_elem? m.elements curr) >>= λ el.
      has_key el key >>= λ same. elim same [
        | true ↦ done el.value
        | false ↦ get_probe m key rounds (next m curr)
      ]

  -- `none` is MAP_MISSING.
  unfoldable pub hashmap_get : HashMap V → Bytes → Run (Option V)
  unfolding get_probe hashmap_hash_int
  hashmap_get m key = hashmap_hash_int m key >>= get_probe m key linear_probe_length

  unfoldable pub remove_probe : HashMap V → Bytes → ℕ → ℕ → Run (HashMap V × Bool)
  unfolding has_key clear_element
  remove_probe m key zero curr = done (m, false)
  remove_probe m key (suc rounds) curr = deref (get_elem? m.elements curr) >>= λ el.
      has_key el key >>= λ same. elim same [
        | true ↦ done (
          record m { elements = set m.elements curr (clear_element el); size = m.size - 1 },
          true,
        )
        | false ↦ remove_probe m key rounds (next m curr)
      ]

  -- `false` is MAP_MISSING.
  unfoldable pub hashmap_remove : HashMap V → Bytes → Run (HashMap V × Bool)
  unfolding remove_probe hashmap_hash_int
  hashmap_remove m key = hashmap_hash_int m key >>= remove_probe m key linear_probe_length

  unfoldable pub hashmap_length : HashMap V → ℕ
  hashmap_length m = m.size

  -- The keys that are not in their elements are freed, and then the table with the map.
  unfoldable pub hashmap_free : HashMap V → List (Element V)
  unfolding clear_element
  hashmap_free m = map clear_element m.elements
