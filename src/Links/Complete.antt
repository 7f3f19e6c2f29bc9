-- ===== src/Links/Complete.antt =====
-- `find_links` of main.c on a whole page: its links are sound, and every reference has one.
use mangl.Run.{Run}
