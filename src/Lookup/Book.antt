-- ===== src/Lookup/Book.antt =====
-- consumer.go: the addresses that a consumer keeps.
use go_nsq.Base.{
  ℕ, ◌+◌, ◌≤◌, ◌<◌, ◌≡◌, ◌⊎◌, inl, inr, refl, sym, ap, ◌∙◌, Bool, true, false, List, [], ◌∷◌, ◌++◌,
  Option, none, some, arith, Bool-cases, Option-cases, if◌then◌else◌, ◌==◌, length, length-append,
}
use go_nsq.Base.Bytes.{bytes_eq, bytes_eq_iff}
use mathlib.Core.Path.{subst}
use go_nsq.Lookup.{
  Addr, Lookup, new_lookup, index_of, slice_delete, delete, has, with_addr, disconnect_from_nsqd,
  disconnect_from_lookupd, add_lookupd, insert_lookupd, ok, begin_connect, cleanup_connection,
  join_connections, on_conn_close,
}
use go_nsq.Lookup.Removal.{
  count, count-append, count-delete, has-count, index_of-none, count-slice_delete,
  length-slice_delete, count-delete_le, bytes_eq_refl,
}
use go_nsq.Lookup.Steps.{Step, Reach, begin_connect-ok, next-ok}

pub record IsListed (dialled joined nsqds lookupds : List Addr) (looping : Bool) : Type 0 where
  pub one_connection : (a : Addr) → count a dialled + count a joined ≤ 1
  pub one_nsqd : (a : Addr) → count a nsqds ≤ 1
  pub one_lookupd : (a : Addr) → count a lookupds ≤ 1
  pub nonempty : (looping ≡ false) ⊎ (0 < length lookupds)

abbrev pub IsBook : Lookup → Type 0
IsBook l =
    IsListed l.pending_connections l.connections l.nsqd_tcp_addrs l.lookupd_http_addrs l.looping

pub count_cons :
    (a b : Addr) (xs : List Addr) → count a (b ∷ xs) ≡ (if bytes_eq a b then 1 else 0) + count a xs
unfolding count
count_cons a b xs = ground arith

appended :
    (b : Addr) (xs : List Addr)
    → count b xs ≡ 0
    → ((a : Addr) → count a xs ≤ 1)
    → (a : Addr) → count a (xs ++ (b ∷ [])) ≤ 1
unfolding count
appended b xs fresh one a = elim (Bool-cases (bytes_eq a b)) [
  | inl hit ↦
      let none_yet : count a xs ≡ 0 =
        ap (λ (x : Addr). count x xs) ((bytes_eq_iff a b).0 hit) ∙ fresh in
      rw (count-append a xs (b ∷ []), count_cons a b [], hit) (omega (arith, none_yet))
  | inr miss ↦ rw (count-append a xs (b ∷ []), count_cons a b [], miss) (omega (arith, one a))
]

with_addr-count :
    (b : Addr) (xs : List Addr)
    → ((a : Addr) → count a xs ≤ 1)
    → (a : Addr) → count a (with_addr b xs) ≤ 1
with_addr-count b xs one a = elim (Option-cases (index_of b xs)) [
  | inl e ↦ rw e (appended b xs ((index_of-none b xs).0 e) one a)
  | inr (i, e) ↦ rw e (one a)
]

slice_delete-count :
    (b : Addr) (xs : List Addr) (i : ℕ)
    → index_of b xs ≡ some i
    → ((a : Addr) → count a xs ≤ 1)
    → (a : Addr) → count a (slice_delete i xs) ≤ 1
slice_delete-count b xs i e one a = omega (arith, count-slice_delete b xs i e a, one a)

begin-IsBook :
    (addr : Addr) (l : Lookup) {l' : Lookup} → begin_connect addr l ≡ ok l' → IsBook l → IsBook l'
begin-IsBook addr l {l'} h w =
    let (not_there, not_pending, same) = begin_connect-ok addr l h in
    let there : count addr l.connections ≡ 0 = has-count addr l.connections not_there in
    let waits : count addr l.pending_connections ≡ 0 =
      has-count addr l.pending_connections not_pending in
    subst IsBook same (record {
      one_connection = λ a. elim (Bool-cases (bytes_eq a addr)) [
        | inl hit ↦
            let is_addr : addr ≡ a = sym ((bytes_eq_iff a addr).0 hit) in
            let there' : count a l.connections ≡ 0 = rw is_addr at there in
            let waits' : count a l.pending_connections ≡ 0 = rw is_addr at waits in
            rw (count_cons a addr l.pending_connections, hit) (omega (arith, there', waits'))
        | inr miss ↦
            rw (count_cons a addr l.pending_connections, miss) (omega (arith, w.one_connection a))
      ];
      one_nsqd = with_addr-count addr l.nsqd_tcp_addrs w.one_nsqd;
      one_lookupd = w.one_lookupd;
      nonempty = w.nonempty;
    })

cleanup-IsBook : (addr : Addr) (l : Lookup) → IsBook l → IsBook (cleanup_connection addr l)
unfolding cleanup_connection
cleanup-IsBook addr l w = record {
  one_connection =
      λ a. omega (arith, count-delete_le addr a l.pending_connections, w.one_connection a);
  one_nsqd = w.one_nsqd;
  one_lookupd = w.one_lookupd;
  nonempty = w.nonempty;
}

join-IsBook : (addr : Addr) (l : Lookup) → IsBook l → IsBook (join_connections addr l)
unfolding join_connections
join-IsBook addr l w = record {
  one_connection = λ a. elim (Bool-cases (bytes_eq a addr)) [
    | inl hit ↦
        let is_addr : a ≡ addr = (bytes_eq_iff a addr).0 hit in
        rw (count_cons a addr (delete addr l.connections), is_addr, bytes_eq_refl addr)
          (omega (arith, count-delete addr l.connections, count-delete addr l.pending_connections))
    | inr miss ↦
        rw (count_cons a addr (delete addr l.connections), miss)
          (omega (
            arith,
            count-delete_le addr a l.connections,
            count-delete_le addr a l.pending_connections,
            w.one_connection a,
          ))
  ];
  one_nsqd = w.one_nsqd;
  one_lookupd = w.one_lookupd;
  nonempty = w.nonempty;
}

close-IsBook : (addr : Addr) (l : Lookup) → IsBook l → IsBook (on_conn_close addr l).0
unfolding on_conn_close
close-IsBook addr l w = record {
  one_connection = λ a. omega (arith, count-delete_le addr a l.connections, w.one_connection a);
  one_nsqd = w.one_nsqd;
  one_lookupd = w.one_lookupd;
  nonempty = w.nonempty;
}

disconnect-IsBook : (addr : Addr) (l : Lookup) → IsBook l → IsBook (disconnect_from_nsqd addr l).2
unfolding disconnect_from_nsqd
disconnect-IsBook addr l w = elim (Option-cases (index_of addr l.nsqd_tcp_addrs)) [
  | inl e ↦ rw (e, disconnect_from_nsqd) w
  | inr (i, e) ↦
      rw (e, disconnect_from_nsqd)
        (record {
          one_connection = w.one_connection;
          one_nsqd = slice_delete-count addr l.nsqd_tcp_addrs i e w.one_nsqd;
          one_lookupd = w.one_lookupd;
          nonempty = w.nonempty;
        })
]

insert-IsBook :
    (a : Addr) (l : Lookup)
    → has a l.lookupd_http_addrs ≡ false
    → IsBook l
    → IsBook (insert_lookupd a l)
insert-IsBook a l fresh w = record {
  one_connection = w.one_connection;
  one_nsqd = w.one_nsqd;
  one_lookupd =
      appended a l.lookupd_http_addrs (has-count a l.lookupd_http_addrs fresh) w.one_lookupd;
  nonempty = inr (omega (arith, length-append l.lookupd_http_addrs (a ∷ [])));
}

add-IsBook :
    (parsed : Option Addr) (l : Lookup) {l' : Lookup}
    → (add_lookupd parsed l).0 ≡ ok l'
    → IsBook l
    → IsBook l'
unfolding add_lookupd
add-IsBook none l h w = absurd (ground arith)
add-IsBook (some a) l {l'} h w = elim (Bool-cases (has a l.lookupd_http_addrs)) [
  | inl known ↦
      let same : record l { connected_flag = true } ≡ l' = ground arith in subst IsBook same w
  | inr fresh ↦
      let same : insert_lookupd a l ≡ l' = ground arith in
      subst IsBook same (insert-IsBook a l fresh w)
]

remove-IsBook :
    (parsed : Option Addr) (l : Lookup) → IsBook l → IsBook (disconnect_from_lookupd parsed l).1
unfolding disconnect_from_lookupd
remove-IsBook none l w = w
remove-IsBook (some a) l w = elim (Option-cases (index_of a l.lookupd_http_addrs)) [
  | inl e ↦ rw (e, disconnect_from_lookupd) w
  | inr (i, e) ↦ elim (Bool-cases (length l.lookupd_http_addrs == 1)) [
    | inl only ↦ rw (e, disconnect_from_lookupd) (rw only w)
    | inr others ↦
        let shorter = length-slice_delete a l.lookupd_http_addrs i e in
        rw (e, disconnect_from_lookupd)
          (rw others (record {
            one_connection = w.one_connection;
            one_nsqd = w.one_nsqd;
            one_lookupd = slice_delete-count a l.lookupd_http_addrs i e w.one_lookupd;
            nonempty = inr (ground arith);
          }))
  ]
]

pub Step-IsBook : {l l' : Lookup} → Step l l' → IsBook l → IsBook l'
Step-IsBook (Step.add_handlers l n) w = w
Step-IsBook (Step.stop l) w = w
Step-IsBook {l} (Step.begin addr h) w = begin-IsBook addr l h w
Step-IsBook (Step.fail l addr _) w = cleanup-IsBook addr l w
Step-IsBook (Step.join l addr _) w = join-IsBook addr l w
Step-IsBook (Step.close l addr) w = close-IsBook addr l w
Step-IsBook (Step.disconnect l addr) w = disconnect-IsBook addr l w
Step-IsBook {l} (Step.add parsed h) w = add-IsBook parsed l h w
Step-IsBook (Step.remove l parsed) w = remove-IsBook parsed l w
Step-IsBook {l} (Step.ask endpoint h) w = subst IsBook (next-ok l endpoint h) w

-- In every state that a new consumer can reach, an address has one connection at most, dialled or
-- joined, and stands once at most in each list of addresses; and once the loop that queries the
-- nsqlookupds runs, there is one to query.
pub Reach-IsBook : {l : Lookup} → Reach new_lookup l → IsBook l
unfolding count
Reach-IsBook Reach.start = record {
  one_connection = λ a. omega arith;
  one_nsqd = λ a. omega arith;
  one_lookupd = λ a. omega arith;
  nonempty = inl refl;
}
Reach-IsBook (Reach.step reach s) = Step-IsBook s (Reach-IsBook reach)
