-- ===== src/Ssdp/Filter/Repeats.antt =====
-- A search is answered once in fifteen seconds, and the table is not left.
use dlna.Prelude.{
  ◌≡◌, ◌≤◌, ◌<◌, ◌+◌, ◌-◌, ◌%◌, ℕ, zero, suc, refl, ap, ◌∙◌, Bool, true, false, not, ◌&&◌,
  Bool-cases, inl, inr, ◌⊎◌, some, List, [], ◌∷◌, arith, Bytes, length, set, get_elem?, All, ltb,
  ◌==◌,
}
use dlna.Prelude.Int.{pos, ◌+ℤ◌}
use dlna.Ssdp.{all_device, CgUpnpSsdpPacket, cg_upnp_ssdp_packet_getst}
use dlna.Ssdp.Device.Targets.{IsTarget, answers-wanted}
use dlna.Ssdp.Device.Kinds.{WellFormed, wanted}
use dlna.Ssdp.Device.{CgUpnpDevice, Advert, answers}
use dlna.Ssdp.Filter.{
  table_size, filter_interval, Filter, signed_char, char_sum, simple_string_hash, zeros, table_of,
  stamped, check_place, id_string, filter_duplicate_m_search, is_search, unless_repeated,
  search_for, cg_upnp_device_ssdpmessagereceived,
}

abbrev pub IsAscii : Bytes → Type 0
IsAscii = All (λ c. c < 128)

char_sum-pos : (n : ℕ) (s : Bytes) → IsAscii s → (m : ℕ) × (char_sum (pos n) s ≡ pos m)
unfolding char_sum
char_sum-pos n [] h = (n, refl)
char_sum-pos n (c ∷ s) (small, h) =
    let (m, e) = char_sum-pos (n + c) s h in
    let same : pos n +ℤ signed_char c ≡ pos (n + c) = ground arith in
    (m, ap (λ z. char_sum z s) same ∙ e)

pub hash-bounds :
    (s : Bytes)
    → IsAscii s
    → (loc : ℕ) × (simple_string_hash s table_size ≡ pos loc) × (loc < table_size)
unfolding simple_string_hash
hash-bounds s h = let (m, e) = char_sum-pos 0 s h in (m % 101, rw e refl, omega arith)

module _ {ℓ} {A : Type ℓ} where
  get_elem?-of_lt : (xs : List A) (i : ℕ) → i < length xs → (x : A) × (get_elem? xs i ≡ some x)
  get_elem?-of_lt [] i h = absurd (omega arith)
  get_elem?-of_lt (x ∷ xs) zero h = (x, refl)
  get_elem?-of_lt (x ∷ xs) (suc i) h = get_elem?-of_lt xs i (omega arith)

  get_elem?-set : (xs : List A) (i : ℕ) (v : A) → i < length xs → get_elem? (set xs i v) i ≡ some v
  get_elem?-set [] i v h = absurd (omega arith)
  get_elem?-set (x ∷ xs) zero v h = refl
  get_elem?-set (x ∷ xs) (suc i) v h = get_elem?-set xs i v (omega arith)

  length-set : (xs : List A) (i : ℕ) (v : A) → length (set xs i v) ≡ length xs
  length-set [] i v = refl
  length-set (x ∷ xs) zero v = refl
  length-set (x ∷ xs) (suc i) v = ap suc (length-set xs i v)

length-zeros : (n : ℕ) → length (zeros n) ≡ n
length-zeros zero = refl
length-zeros (suc n) = ap suc (length-zeros n)

-- The table has its size when it is in use.
abbrev pub IsTable : Filter → Type 0
IsTable filter = filter.initialized ≡ true → length filter.timestamps ≡ table_size

length-table_of : (filter : Filter) → IsTable filter → length (table_of filter) ≡ table_size
unfolding table_of
length-table_of filter h = elim (Bool-cases filter.initialized) [
  | inl used ↦ rw used (h used)
  | inr unused ↦ rw unused (length-zeros 101)
]

-- is a place with this stamp taken by a search of the last seconds?
repeats : ℕ → ℕ → Bool
repeats stamp now = not (stamp == 0) && ltb (now - stamp) filter_interval

check_place-stamp :
    (table : List ℕ) (now loc stamp : ℕ)
    → get_elem? table loc ≡ some stamp
    → check_place table now (pos loc) ≡ some (repeats stamp now, stamped table loc now)
unfolding check_place repeats
check_place-stamp table now loc stamp e = rw (check_place, e) (ground arith)

filter-stamp :
    (pkt : CgUpnpSsdpPacket) (st : Bytes) (filter : Filter) (now loc stamp : ℕ)
    → simple_string_hash (id_string pkt st) table_size ≡ pos loc
    → get_elem? (table_of filter) loc ≡ some stamp
    → filter_duplicate_m_search pkt st filter now
      ≡ some (repeats stamp now, stamped (table_of filter) loc now)
unfolding filter_duplicate_m_search
filter-stamp pkt st filter now loc stamp hash e =
    ap (check_place (table_of filter) now) hash
    ∙ check_place-stamp (table_of filter) now loc stamp e

-- For a search whose address and target are ASCII texts, filter_duplicate_m_search reads and
-- writes inside its table of 101 places, and the table keeps its size.
pub filter_duplicate-bounds :
    (pkt : CgUpnpSsdpPacket) (st : Bytes) (filter : Filter) (now : ℕ)
    → IsAscii (id_string pkt st)
    → IsTable filter
    → (repeated : Bool) × (after : Filter) × (filter_duplicate_m_search pkt st filter now
        ≡ some (repeated, after))
      × IsTable after
filter_duplicate-bounds pkt st filter now ascii table =
    let (loc, hash, inside) = hash-bounds (id_string pkt st) ascii in
    let size = length-table_of filter table in
    let (stamp, e) = get_elem?-of_lt (table_of filter) loc (omega arith) in
    (
      repeats stamp now,
      stamped (table_of filter) loc now,
      filter-stamp pkt st filter now loc stamp hash e,
      λ used. length-set (table_of filter) loc now ∙ size,
    )

received-stamp :
    (dev : CgUpnpDevice) (pkt : CgUpnpSsdpPacket) (c : ℕ) (st : Bytes) (filter : Filter)
    (now loc stamp : ℕ)
    → is_search pkt ≡ true
    → cg_upnp_ssdp_packet_getst pkt ≡ some (c ∷ st)
    → simple_string_hash (id_string pkt (c ∷ st)) table_size ≡ pos loc
    → get_elem? (table_of filter) loc ≡ some stamp
    → cg_upnp_device_ssdpmessagereceived dev pkt filter now
      ≡ some (unless_repeated dev (c ∷ st) (repeats stamp now, stamped (table_of filter) loc now))
unfolding cg_upnp_device_ssdpmessagereceived search_for
received-stamp dev pkt c st filter now loc stamp search target hash e =
    let step = filter-stamp pkt (c ∷ st) filter now loc stamp hash e in
    rw (search, target, step) refl

repeats-soon : (now later : ℕ) → 0 < now → later - now < filter_interval → repeats now later ≡ true
unfolding repeats
repeats-soon now later started soon = ground arith

-- When a search that passes the checks is received a second time less than 15 seconds after the
-- first time, the second one gets no answers at all, whatever became of the first. Address and
-- target are ASCII texts, the target is not empty, the filter table has its size, and the clock is
-- not at 0.
pub received_repeated :
    (dev : CgUpnpDevice) (pkt : CgUpnpSsdpPacket) (c : ℕ) (st : Bytes) (filter : Filter)
    (now later : ℕ)
    → is_search pkt ≡ true
    → cg_upnp_ssdp_packet_getst pkt ≡ some (c ∷ st)
    → IsAscii (id_string pkt (c ∷ st))
    → IsTable filter
    → 0 < now
    → later - now < filter_interval
    → (first : List Advert) × (after : Filter) × (end : Filter)
      × (cg_upnp_device_ssdpmessagereceived dev pkt filter now ≡ some (first, after))
      × (cg_upnp_device_ssdpmessagereceived dev pkt after later ≡ some ([], end))
unfolding unless_repeated table_of
received_repeated dev pkt c st filter now later valid target ascii table started soon =
    let (loc, hash, inside) = hash-bounds (id_string pkt (c ∷ st)) ascii in
    let size = length-table_of filter table in
    let (stamp, e) = get_elem?-of_lt (table_of filter) loc (omega arith) in
    let after = stamped (table_of filter) loc now in
    let here = get_elem?-set (table_of filter) loc now (omega arith) in
    let first = received-stamp dev pkt c st filter now loc stamp valid target hash e in
    let second = received-stamp dev pkt c st after later loc now valid target hash here in
    (
      _,
      after,
      stamped (table_of after) loc later,
      first,
      rw (repeats-soon now later started soon) at second,
    )

-- The place of the search in the table is free, or its stamp is old.
abbrev pub IsFresh : CgUpnpSsdpPacket → Bytes → Filter → ℕ → Type 0
IsFresh pkt st filter now =
    (loc : ℕ)
    → simple_string_hash (id_string pkt st) table_size ≡ pos loc
    → (stamp : ℕ) → get_elem? (table_of filter) loc ≡ some stamp
    → (stamp ≡ 0) ⊎ (filter_interval ≤ now - stamp)

repeats-fresh :
    (stamp now : ℕ) → (stamp ≡ 0) ⊎ (filter_interval ≤ now - stamp) → repeats stamp now ≡ false
unfolding repeats
repeats-fresh stamp now fresh = ground arith

-- A search that passes the checks of cg_upnp_device_ssdpmessagereceived and whose place in the
-- filter table is free or older than 15 seconds is answered with exactly the adverts of the device
-- tree that have its target. The target is not empty and, like the device tree, as for answers-
-- wanted; address and target are ASCII texts, and the filter table has its size.
pub received-wanted :
    (dev : CgUpnpDevice) (pkt : CgUpnpSsdpPacket) (c : ℕ) (st : Bytes) (filter : Filter) (now : ℕ)
    → is_search pkt ≡ true
    → cg_upnp_ssdp_packet_getst pkt ≡ some (c ∷ st)
    → IsAscii (id_string pkt (c ∷ st))
    → IsTable filter
    → IsFresh pkt (c ∷ st) filter now
    → IsTarget (c ∷ st)
    → WellFormed dev
    → (after : Filter) × (cg_upnp_device_ssdpmessagereceived dev pkt filter now
        ≡ some (wanted (c ∷ st) (answers dev (some all_device)), after))
unfolding unless_repeated
received-wanted dev pkt c st filter now valid target ascii table fresh is_target good =
    let (loc, hash, inside) = hash-bounds (id_string pkt (c ∷ st)) ascii in
    let size = length-table_of filter table in
    let (stamp, e) = get_elem?-of_lt (table_of filter) loc (omega arith) in
    let got = received-stamp dev pkt c st filter now loc stamp valid target hash e in
    let answered = rw (repeats-fresh stamp now (fresh loc hash stamp e)) at got in
    (_, rw (answers-wanted dev (c ∷ st) is_target good) at answered)
