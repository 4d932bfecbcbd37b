-- ===== src/KnownHosts/Refinement.antt =====
-- KnownHosts as a bag of hosts: every program gets answers that the bag allows.
use ssh2_rs.Base.{
  ℕ, suc, ◌+◌, ◌≤◌, ◌<◌, ◌≡◌, refl, sym, ap, ◌∙◌, Bool, true, false, Option, none, some, List, [],
  ◌∷◌, ◌++◌, length, length-append, ◌==◌, ==_iff, Bool-cases, inl, inr, arith,
}
use ssh2_rs.Base.Int.{is_nonneg}
use ssh2_rs.Base.Text.{Bytes, has_nul}
use ssh2_rs.Codes.{KnownHostKeyFormat, add_flags}
use ssh2_rs.Errors.{nul_error, Result, ok, err, c_string}
use ssh2_rs.Errors.Session.{rc, from_session_error_raw}
use ssh2_rs.Walk.Laws.{values, first}
use ssh2_rs.KnownHosts.{Host, host_eq, add, remove}
use ssh2_rs.KnownHosts.Raw.{Api}
use ssh2_rs.KnownHosts.Laws.{deleted, hosts-Contains, remove-Contains}
use ssh2_rs.KnownHosts.Bag.{Bag, bag_of, put-between, take_out-bag_of, drop_one}
use ssh2_rs.KnownHosts.Programs.{
  Op, lists, adds, removes, Answer, listed, done, Answers, perform, run_hosts, added, Allows,
  Behaves, has, without, IsDistinct, Keeps,
}

first-has :
    (same : Host → Bool) (items : List (ℕ × Host)) (p : ℕ)
    → first same items ≡ some p
    → has p items ≡ true
first-has same [] p e = cc
first-has same ((q, h) ∷ items) p e = ground (arith, first-has same items p)

not_both :
    (q p : ℕ) (items : List (ℕ × Host))
    → has q items ≡ false
    → has p items ≡ true
    → (q == p) ≡ false
not_both q p items absent there = elim (Bool-cases (q == p)) [
  | inl same ↦ cc ((==_iff q p).0 same)
  | inr other ↦ other
]

-- Taking the node of the first equal host out takes one such host out.
values-without :
    (h : Host) (items : List (ℕ × Host)) (p : ℕ)
    → IsDistinct items
    → first (λ current. host_eq current h) items ≡ some p
    → values (without p items) ≡ drop_one h (values items)
values-without h [] p d e = cc
values-without h ((q, x) ∷ items) p d e = elim (Bool-cases (host_eq x h)) [
  | inl same ↦
      let found : some q ≡ some p = rw same at e in
      let here : (q == p) ≡ true = ground arith in rw (same, here) refl
  | inr other ↦
      let later : first (λ current. host_eq current h) items ≡ some p = rw other at e in
      let there = first-has (λ current. host_eq current h) items p later in
      let elsewhere : (q == p) ≡ false = not_both q p items d.0 there in
      rw (other, elsewhere) (ap (λ l. x ∷ l) (values-without h items p d.1 later))
]

values-missing :
    (h : Host) (items : List (ℕ × Host))
    → first (λ current. host_eq current h) items ≡ none
    → drop_one h (values items) ≡ values items
values-missing h [] e = refl
values-missing h ((q, x) ∷ items) e = ground (arith, values-missing h items)

values-append : (xs ys : List (ℕ × Host)) → values (xs ++ ys) ≡ values xs ++ values ys
values-append [] ys = refl
values-append ((p, h) ∷ xs) ys = ap (λ l. h ∷ l) (values-append xs ys)

length-without-le : (p : ℕ) (items : List (ℕ × Host)) → length (without p items) ≤ length items
length-without-le p [] = omega arith
length-without-le p ((q, h) ∷ items) = ground (arith, length-without-le p items)

module _ {S : Type 0} (api : Api S) (hosts_raw : ℕ) (key_text : Bytes → Bytes)
    (nodes : S → List (ℕ × Host)) (keeps : Keeps api hosts_raw key_text nodes) where
  -- The bag of what a collection has in a state.
  abbrev bag : S → Bag
  bag s = bag_of (values (nodes s))

  -- A call gives an answer that the bag allows, and makes the collection longer by one at most.
  abbrev Answered : ℕ → Op → S → Type 0
  Answered fuel op s =
      (r : Result Answer) × (s' : S) × (perform api hosts_raw fuel op s ≡ some (r, s'))
      × Allows key_text (bag s) op r (bag s')
      × (length (nodes s') ≤ suc (length (nodes s)))

  lists_lem : (fuel : ℕ) (s : S) → length (nodes s) < fuel → Answered fuel lists s
  unfolding perform
  lists_lem fuel s enough =
      let run = hosts-Contains api hosts_raw s (nodes s) fuel (keeps.walks s) enough in
      (ok (listed (values (nodes s))), s, rw run refl, (refl, refl), omega arith)

  removes_lem :
      (fuel : ℕ) (h : Host) (s : S) → length (nodes s) < fuel → Answered fuel (removes h) s
  unfolding perform rc
  removes_lem fuel h s enough = go (first (λ current. host_eq current h) (nodes s)) refl
    where
      run :
          remove api hosts_raw fuel h s
          ≡ some (deleted api hosts_raw s (first (λ current. host_eq current h) (nodes s)))
      run = remove-Contains api hosts_raw s (nodes s) h fuel (keeps.walks s) enough

      go :
          (found : Option ℕ)
          → first (λ current. host_eq current h) (nodes s) ≡ found
          → Answered fuel (removes h) s
      go none e = (
        ok done,
        s,
        rw (run, e) refl,
        sym (take_out-bag_of h _ ∙ ap bag_of (values-missing h (nodes s) e)),
        omega arith,
      )
      go (some p) e =
          let gone = keeps.deletes s p (first-has _ (nodes s) p e) in
          (
            ok done,
            (api.del hosts_raw p s).1,
            rw (run, e, gone.0) refl,
            ap (λ l. bag_of (values l)) gone.1
                ∙ ap bag_of (values-without h (nodes s) p (keeps.distinct s) e)
                ∙ sym (take_out-bag_of h _),
            rw gone.1 (omega (arith, length-without-le p (nodes s))),
          )

  -- An addition that libssh2 was asked for.
  adds_asked :
      (fuel : ℕ) (host key comment : Bytes) (fmt : KnownHostKeyFormat) (s : S)
      → has_nul host ≡ false
      → Answered fuel (adds host key comment fmt) s
  unfolding perform add c_string rc
  adds_asked fuel host key comment fmt s clean =
      go (is_nonneg (api.addc hosts_raw host key comment (add_flags fmt) s).0) refl
    where
      go :
          (fine : Bool)
          → is_nonneg (api.addc hosts_raw host key comment (add_flags fmt) s).0 ≡ fine
          → Answered fuel (adds host key comment fmt) s
      go true e =
          let (front, back, p, old, new) = keeps.adds s host key comment (add_flags fmt) e in
          let entry = added key_text host key in
          (
            ok done,
            (api.addc hosts_raw host key comment (add_flags fmt) s).1,
            rw (clean, e) refl,
            (
              clean,
              rw (new, old, values-append front ((p, entry) ∷ back), values-append front back)
                  (put-between entry (values front) (values back)),
            ),
            rw (new, old)
                (omega (arith, length-append front back, length-append front ((p, entry) ∷ back))),
          )
      go false e =
          let same = keeps.refuses s host key comment (add_flags fmt) e in
          (
            err (
                from_session_error_raw api.session
                  (api.addc hosts_raw host key comment (add_flags fmt) s).0
                  (api.addc hosts_raw host key comment (add_flags fmt) s).1),
            (api.addc hosts_raw host key comment (add_flags fmt) s).1,
            rw (clean, e) refl,
            ((λ nul. cc), ap (λ l. bag_of (values l)) same),
            rw same (omega arith),
          )

  adds_lem :
      (fuel : ℕ) (host key comment : Bytes) (fmt : KnownHostKeyFormat) (s : S)
      → Answered fuel (adds host key comment fmt) s
  unfolding perform add c_string
  adds_lem fuel host key comment fmt s = elim (Bool-cases (has_nul host)) [
    | inl nul ↦ (err nul_error, s, rw nul refl, ((λ h. refl), refl), omega arith)
    | inr clean ↦ adds_asked fuel host key comment fmt s clean
  ]

  perform-Allows : (fuel : ℕ) (op : Op) (s : S) → length (nodes s) < fuel → Answered fuel op s
  perform-Allows fuel lists s enough = lists_lem fuel s enough
  perform-Allows fuel (adds host key comment fmt) s enough = adds_lem fuel host key comment fmt s
  perform-Allows fuel (removes host) s enough = removes_lem fuel host s enough

  -- Where libssh2 keeps its collection as it documents, every program of lists, additions and
  -- removals ends and gets answers that a bag of hosts allows, from the bag that the collection holds
  -- at first to the one that it holds at the end: a list gives what the bag holds, in some order; a
  -- removal takes out one host that is equal, if there is one, and succeeds; an addition puts the
  -- host in, or fails and changes nothing, as it does for a name with a zero byte. More rounds than
  -- there are hosts and calls are enough for the loops.
  pub run_hosts-Behaves :
      (ops : List Op) (fuel : ℕ) (s : S)
      → length (nodes s) + length ops < fuel
      → (rs : Answers) × (s' : S) × (run_hosts api hosts_raw fuel ops s ≡ some (rs, s'))
        × Behaves key_text (bag s) ops rs (bag s')
  unfolding run_hosts
  run_hosts-Behaves [] fuel s enough = ([], s, refl, refl)
  run_hosts-Behaves (op ∷ ops) fuel s enough =
      let (r, s', made, allowed, longer) = perform-Allows fuel op s (omega arith) in
      let (rs, s'', rest, behaves) = run_hosts-Behaves ops fuel s' (omega arith) in
      (r ∷ rs, s'', rw (made, rest) refl, (bag s', allowed, behaves))
