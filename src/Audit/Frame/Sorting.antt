-- ===== src/Audit/Frame/Sorting.antt =====
-- The order of the headers that core/src/audit.rs stores and that its query returns.
use audite_db.Prelude.{◌≡◌, refl, ap, ◌∙◌, true, false, List, [], ◌∷◌, arith}
use audite_db.Prelude.Text.{Bytes, eq_bytes_iff, leb_bytes}
use audite_db.Audit.Events.{Header}
use audite_db.Audit.Frame.{leb_header, insert_header, sort_headers}

leb_bytes-total : (s t : Bytes) → leb_bytes s t ≡ false → leb_bytes t s ≡ true
unfolding leb_bytes
leb_bytes-total [] t h = cc
leb_bytes-total (a ∷ s) [] h = refl
leb_bytes-total (a ∷ s) (b ∷ t) h = ground (arith, leb_bytes-total s t)

leb_header-total : (h k : Header) → leb_header h k ≡ false → leb_header k h ≡ true
unfolding leb_header
leb_header-total (n, v) (m, w) e =
    ground (arith, leb_bytes-total v w, leb_bytes-total n m, eq_bytes_iff n m, eq_bytes_iff m n)

abbrev Sorted : List Header → Type 0
Sorted [] = Unit
Sorted (h ∷ []) = Unit
Sorted (h ∷ k ∷ hs) = (leb_header h k ≡ true) × Sorted (k ∷ hs)

insert_header-Sorted : (h : Header) (hs : List Header) → Sorted hs → Sorted (insert_header h hs)
unfolding insert_header
insert_header-Sorted h [] s = tt
insert_header-Sorted h (k ∷ []) s = ground (arith, leb_header-total h k)
insert_header-Sorted h (k ∷ l ∷ hs) s =
    ground (arith, leb_header-total h k, leb_header-total h l, insert_header-Sorted h (l ∷ hs) s.1)

sort_headers-Sorted : (hs : List Header) → Sorted (sort_headers hs)
unfolding sort_headers
sort_headers-Sorted [] = tt
sort_headers-Sorted (h ∷ hs) = insert_header-Sorted h (sort_headers hs) (sort_headers-Sorted hs)

sort_headers-of_Sorted : (hs : List Header) → Sorted hs → sort_headers hs ≡ hs
unfolding sort_headers insert_header
sort_headers-of_Sorted [] s = refl
sort_headers-of_Sorted (h ∷ []) s = refl
sort_headers-of_Sorted (h ∷ k ∷ hs) s =
    ap (insert_header h) (sort_headers-of_Sorted (k ∷ hs) s.1) ∙ simp (s.0)

-- Sorting again changes nothing: the query returns the headers in the order in which they were
-- signed.
pub sort_headers_idem : (hs : List Header) → sort_headers (sort_headers hs) ≡ sort_headers hs
sort_headers_idem hs = sort_headers-of_Sorted (sort_headers hs) (sort_headers-Sorted hs)
