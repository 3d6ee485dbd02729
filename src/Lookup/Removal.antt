-- ===== src/Lookup/Removal.antt =====
-- consumer.go: indexOf with the deletion from a slice, and the lists of addresses.
use go_nsq.Base.{
  ℕ, suc, ◌+◌, ◌≤◌, ◌<◌, ◌≡◌, ◌⊎◌, ◌↔◌, inl, inr, refl, sym, ap, Bool, true, false, List, [], ◌∷◌,
  ◌++◌, none, some, arith, Bool-cases, Option-cases, if◌then◌else◌, ◌==◌, length, length-append,
}
use go_nsq.Base.Bytes.{bytes_eq, bytes_eq_iff}
use go_nsq.Lookup.{
  Addr, Lookup, index_of, slice_delete, delete, has, nothing, not_connected, disconnect_from_nsqd,
  disconnect_from_lookupd, add_lookupd, insert_lookupd, is_first, Result, ok,
}

-- How often an address stands in a list.
unfoldable pub count : Addr → List Addr → ℕ
count a [] = 0
count a (b ∷ bs) = let rest = count a bs in if bytes_eq a b then suc rest else rest

pub bytes_eq_refl : (a : Addr) → bytes_eq a a ≡ true
bytes_eq_refl a = (bytes_eq_iff a a).1 refl

pub count-append : (a : Addr) (xs ys : List Addr) → count a (xs ++ ys) ≡ count a xs + count a ys
unfolding count
count-append a [] ys = omega arith
count-append a (x ∷ xs) ys = ground (arith, count-append a xs ys)

pub count-delete : (a : Addr) (xs : List Addr) → count a (delete a xs) ≡ 0
unfolding count delete
count-delete a [] = refl
count-delete a (x ∷ xs) = elim (Bool-cases (bytes_eq a x)) [
  | inl hit ↦ rw hit (count-delete a xs)
  | inr miss ↦ rw (miss, miss) (count-delete a xs)
]

pub count-delete_ne :
    (a b : Addr) (xs : List Addr) → bytes_eq b a ≡ false → count b (delete a xs) ≡ count b xs
unfolding count delete
count-delete_ne a b [] off = refl
count-delete_ne a b (x ∷ xs) off = elim (Bool-cases (bytes_eq a x)) [
  | inl hit ↦
      let same : a ≡ x = (bytes_eq_iff a x).0 hit in
      let apart : bytes_eq b x ≡ false = rw same at off in
      rw (hit, apart) (count-delete_ne a b xs off)
  | inr miss ↦ rw miss (ground (arith, count-delete_ne a b xs off))
]

pub has-count : (a : Addr) (xs : List Addr) → has a xs ≡ false → count a xs ≡ 0
unfolding count
has-count a [] h = refl
has-count a (x ∷ xs) h = elim (Bool-cases (bytes_eq a x)) [
  | inl hit ↦ absurd (ground arith)
  | inr miss ↦ rw miss (has-count a xs (rw miss at h))
]

pub index_of-none : (a : Addr) (xs : List Addr) → (index_of a xs ≡ none) ↔ (count a xs ≡ 0)
unfolding index_of count
index_of-none a [] = (λ _. refl, λ _. refl)
index_of-none a (x ∷ xs) = elim (Bool-cases (bytes_eq a x)) [
  | inl hit ↦ (λ h. absurd (ground arith), λ h. absurd (ground arith))
  | inr miss ↦ (
    λ h. rw miss (
        (index_of-none a xs).0
          (elim (Option-cases (index_of a xs)) [ inl e ↦ e | inr (i, e) ↦ absurd (ground arith) ])),
    λ h. let e = (index_of-none a xs).1 (rw miss at h) in rw (miss, e) refl,
  )
]

-- One occurrence of the address goes, and nothing else.
pub count-slice_delete :
    (a : Addr) (xs : List Addr) (i : ℕ)
    → index_of a xs ≡ some i
    → (b : Addr) → count b xs ≡ count b (slice_delete i xs) + (if bytes_eq b a then 1 else 0)
unfolding index_of count
count-slice_delete a [] i e b = absurd (cc)
count-slice_delete a (x ∷ xs) i e b = elim (Bool-cases (bytes_eq a x)) [
  | inl hit ↦
      let same : a ≡ x = (bytes_eq_iff a x).0 hit in
      let first : 0 ≡ i = ground arith in rw (sym first, same) (ground arith)
  | inr miss ↦ elim (Option-cases (index_of a xs)) [
    | inl e' ↦ absurd (ground arith)
    | inr (j, e') ↦
        let later : suc j ≡ i = ground arith in
        rw (sym later) (ground (arith, count-slice_delete a xs j e' b))
  ]
]

-- DisconnectFromNSQD returns ErrNotConnected, and changes nothing, exactly for an address that is not
-- in the list of nsqds; any other address goes from the list once, and all else in the list stays.
pub disconnect_from_nsqd_lem :
    (addr : Addr) (l : Lookup)
    → ((count addr l.nsqd_tcp_addrs ≡ 0)
        × (disconnect_from_nsqd addr l ≡ (some not_connected, nothing, l)))
      ⊎ ((0 < count addr l.nsqd_tcp_addrs)
          × ((disconnect_from_nsqd addr l).0 ≡ none)
          × ((b : Addr)
              → count b l.nsqd_tcp_addrs
                ≡ count b (disconnect_from_nsqd addr l).2.nsqd_tcp_addrs
                  + (if bytes_eq b addr then 1 else 0)))
unfolding disconnect_from_nsqd
disconnect_from_nsqd_lem addr l = elim (Option-cases (index_of addr l.nsqd_tcp_addrs)) [
  | inl e ↦ inl ((index_of-none addr l.nsqd_tcp_addrs).0 e, rw (e, disconnect_from_nsqd) refl)
  | inr (i, e) ↦
      let counts = count-slice_delete addr l.nsqd_tcp_addrs i e in
      inr (
        omega (arith, rw (bytes_eq_refl addr) at (counts addr)),
        rw (e, disconnect_from_nsqd) refl,
        λ b. rw (e, disconnect_from_nsqd) (counts b),
      )
]

index_of-append :
    (a : Addr) (xs : List Addr) → has a xs ≡ false → index_of a (xs ++ (a ∷ [])) ≡ some (length xs)
unfolding index_of
index_of-append a [] h = rw (bytes_eq_refl a) refl
index_of-append a (x ∷ xs) h = elim (Bool-cases (bytes_eq a x)) [
  | inl hit ↦ absurd (ground arith)
  | inr miss ↦ rw (miss, index_of-append a xs (rw miss at h)) refl
]

slice_delete-append : (a : Addr) (xs : List Addr) → slice_delete (length xs) (xs ++ (a ∷ [])) ≡ xs
slice_delete-append a [] = refl
slice_delete-append a (x ∷ xs) = ap (◌∷◌ x) (slice_delete-append a xs)

add_lookupd_new :
    (a : Addr) (l : Lookup)
    → l.stop_flag ≡ false
    → 0 < l.running_handlers
    → has a l.lookupd_http_addrs ≡ false
    → add_lookupd (some a) l ≡ (ok (insert_lookupd a l), is_first a l)
unfolding add_lookupd
add_lookupd_new a l running handled fresh =
    let some_handler : (l.running_handlers == 0) ≡ false = ground arith in
    rw (running, add_lookupd) (rw some_handler (rw fresh refl))

-- An nsqlookupd that ConnectToNSQLookupd adds to a list with others is one that
-- DisconnectFromNSQLookupd takes away again: it succeeds, and the list is what it was.
pub disconnect_from_lookupd-add_lookupd :
    (a : Addr) (l : Lookup)
    → l.stop_flag ≡ false
    → 0 < l.running_handlers
    → has a l.lookupd_http_addrs ≡ false
    → 0 < length l.lookupd_http_addrs
    → (l' : Lookup) × ((add_lookupd (some a) l).0 ≡ ok l')
      × ((disconnect_from_lookupd (some a) l').0 ≡ none)
      × ((disconnect_from_lookupd (some a) l').1.lookupd_http_addrs ≡ l.lookupd_http_addrs)
unfolding disconnect_from_lookupd
disconnect_from_lookupd-add_lookupd a l running handled fresh others =
    let xs = l.lookupd_http_addrs in
    let longer : length (xs ++ (a ∷ [])) ≡ length xs + 1 = length-append xs (a ∷ []) in
    let not_one : (length (xs ++ (a ∷ [])) == 1) ≡ false = ground arith in
    let at_end = index_of-append a xs fresh in
    (
      insert_lookupd a l,
      ap (λ (p : Result × Bool). p.0) (add_lookupd_new a l running handled fresh),
      rw (at_end, disconnect_from_lookupd) (rw not_one refl),
      rw (at_end, disconnect_from_lookupd) (rw not_one (slice_delete-append a xs)),
    )

pub length-slice_delete :
    (a : Addr) (xs : List Addr) (i : ℕ)
    → index_of a xs ≡ some i
    → length (slice_delete i xs) + 1 ≡ length xs
unfolding index_of
length-slice_delete a [] i e = absurd (cc)
length-slice_delete a (x ∷ xs) i e = elim (Bool-cases (bytes_eq a x)) [
  | inl hit ↦ let first : 0 ≡ i = ground arith in rw (sym first) (omega arith)
  | inr miss ↦ elim (Option-cases (index_of a xs)) [
    | inl e' ↦ absurd (ground arith)
    | inr (j, e') ↦
        let later : suc j ≡ i = ground arith in
        rw (sym later) (omega (arith, length-slice_delete a xs j e'))
  ]
]

pub count-delete_le : (a b : Addr) (xs : List Addr) → count b (delete a xs) ≤ count b xs
unfolding count delete
count-delete_le a b [] = omega arith
count-delete_le a b (x ∷ xs) = ground (arith, count-delete_le a b xs)
