-- ===== src/Objects/SubsystemLaws.antt =====
-- The SFTP subsystem's own count of references agrees with the count over the whole crate.
use ssh2_rs.Base.{
  ℕ, suc, ◌-◌, ◌≡◌, refl, sym, ap, ◌∙◌, Bool, true, false, List, [], ◌∷◌, length, any, ltb, ◌==◌,
  Bool-cases, inl, inr, arith, if◌then◌else◌,
}
use ssh2_rs.Objects.{
  sftp, Heap, is_at, refs, dropped, recounted, Op, clones, releases, uses, shuts_down, perform,
  clone_block, release_block, drop_block, release_session, shutdown, use_block,
}
use ssh2_rs.Objects.Subsystem.{
  perform_all, CanAll, holders_of, Stands, refs-recounted, dropped-recounted, refs-none,
  dropped-none,
}
use ssh2_rs.Sftp.Views.{without-missing}
use ssh2_rs.Sftp.Abstract.{View, has, without, closed}

module _ (raw : ℕ) (v : View) (h : Heap) (stands : Stands raw v h)
    (there : ltb 0 (holders_of v) ≡ true) where
  someone : ltb 0 (refs sftp raw h.blocks) ≡ true
  someone = rw stands.counted there

  recount-Stands :
      (n : ℕ) (v' : View)
      → holders_of v' ≡ n
      → Stands raw v' (record h { blocks = recounted sftp raw n h.blocks })
  recount-Stands n v' e = record {
    counted = refs-recounted sftp raw n h.blocks someone ∙ sym e;
    single = rw (dropped-recounted sftp raw n h.blocks) stands.single;
  }

  clone-Stands :
      (v' : View) → holders_of v' ≡ suc (holders_of v) → Stands raw v' (perform (clones sftp raw) h)
  unfolding perform clone_block
  clone-Stands v' e =
      recount-Stands (suc (refs sftp raw h.blocks)) v' (e ∙ ap suc (sym stands.counted))

  drop-Stands : (v' : View) → holders_of v' ≡ 0 → Stands raw v' (drop_block sftp raw h)
  unfolding drop_block release_session
  drop-Stands v' e = elim (Bool-cases (h.strong == 1)) [
    | inl last ↦ rw last (record { counted = gone_refs; single = gone_single })
    | inr more ↦ rw more (record { counted = gone_refs; single = gone_single })
  ]
    where
      gone_refs : refs sftp raw (dropped sftp raw h.blocks) ≡ holders_of v'
      gone_refs = refs-none sftp raw (dropped sftp raw h.blocks) stands.single ∙ sym e

      gone_single : any (is_at sftp raw) (dropped sftp raw (dropped sftp raw h.blocks)) ≡ false
      gone_single =
          rw (dropped-none sftp raw (dropped sftp raw h.blocks) stands.single) stands.single

  release-Stands :
      (v' : View)
      → suc (holders_of v') ≡ holders_of v
      → Stands raw v' (perform (releases sftp raw) h)
  unfolding perform release_block
  release-Stands v' e = elim (Bool-cases (refs sftp raw h.blocks == 1)) [
    | inl last ↦ rw last (drop-Stands v' (ground (arith, stands.counted)))
    | inr more ↦
        rw more (recount-Stands (refs sftp raw h.blocks - 1) v' (ground (arith, stands.counted)))
  ]

  use-Stands : Stands raw v (perform (uses sftp raw) h)
  unfolding perform use_block
  use-Stands = record { counted = stands.counted; single = stands.single }

  last-Stands :
      (v' : View)
      → holders_of v ≡ 1
      → holders_of v' ≡ 0
      → Stands raw v' (perform (shuts_down raw) h)
  unfolding perform shutdown
  last-Stands v' one e =
      let alone : (refs sftp raw h.blocks == 1) ≡ true = rw (stands.counted, one) refl in
      rw alone (drop-Stands v' e)

  busy-Stands : (holders_of v == 1) ≡ false → Stands raw v (perform (shuts_down raw) h)
  unfolding perform shutdown
  busy-Stands e =
      let shared : (refs sftp raw h.blocks == 1) ≡ false = rw stands.counted e in rw shared stands

length-without :
    (name : ℕ) (names : List ℕ)
    → has name names ≡ true
    → suc (length (without name names)) ≡ length names
length-without name [] e = cc
length-without name (n ∷ names) e = ground (arith, length-without name names)

-- The changes are possible, and lead to as many references as the view then has holders.
abbrev pub Agrees : ℕ → View → List Op → Heap → Type 0
Agrees raw v ops h = CanAll ops h × Stands raw v (perform_all ops h)

abbrev viewed : Bool → List ℕ → View
viewed held names = record { held = held; names = names }

-- The `Sftp` is a holder.
held-there : (names : List ℕ) → ltb 0 (holders_of (viewed true names)) ≡ true
held-there names = ground arith

module _ (raw : ℕ) (h : Heap) where
  pub closing-Agrees :
      (v : View) (name : ℕ)
      → has name v.names ≡ true
      → Stands raw v h
      → Agrees raw (closed name v) (releases sftp raw ∷ []) h
  closing-Agrees v name e stands =
      let shorter = length-without name v.names e in
      let there : ltb 0 (holders_of v) ≡ true = ground arith in
      (
        (someone raw v h stands there, tt),
        release-Stands raw v h stands there (closed name v) (ground arith),
      )

  pub dropping-Agrees :
      (v : View) (name : ℕ)
      → Stands raw v h
      → Agrees raw (closed name v) (if has name v.names then releases sftp raw ∷ [] else []) h
  dropping-Agrees v name stands = elim (Bool-cases (has name v.names)) [
    | inl e ↦ rw e (closing-Agrees v name e stands)
    | inr e ↦ rw e (tt, rw (without-missing name v.names e) stands)
  ]

  pub opening-Agrees :
      (held : Bool) (names : List ℕ) (name : ℕ)
      → held ≡ true
      → Stands raw (viewed held names) h
      → Agrees raw (viewed held (name ∷ names)) (clones sftp raw ∷ []) h
  opening-Agrees false names name e stands = cc
  opening-Agrees true names name e stands = (
    (someone raw (viewed true names) h stands (held-there names), tt),
    clone-Stands raw (viewed true names) h stands (held-there names) (viewed true (name ∷ names))
        (ground arith),
  )

  pub busy-Agrees :
      (held : Bool) (names : List ℕ) (name : ℕ) (others : List ℕ)
      → names ≡ name ∷ others
      → Stands raw (viewed held names) h
      → Agrees raw (viewed held names) (if held then shuts_down raw ∷ [] else []) h
  busy-Agrees false names name others e stands = (tt, stands)
  busy-Agrees true [] name others e stands = cc
  busy-Agrees true (n ∷ names) name others e stands =
      let v = viewed true (n ∷ names) in
      let there = held-there (n ∷ names) in
      ((someone raw v h stands there, tt), busy-Stands raw v h stands there (ground arith))

  pub late-Agrees :
      (held : Bool) (names : List ℕ)
      → held ≡ false
      → Stands raw (viewed held names) h
      → Agrees raw (viewed held names) (if held then shuts_down raw ∷ [] else []) h
  late-Agrees false names e stands = (tt, stands)
  late-Agrees true names e stands = cc

  pub last-Agrees :
      (held : Bool) (names : List ℕ)
      → held ≡ true
      → names ≡ []
      → Stands raw (viewed held names) h
      → Agrees raw (viewed false names) (if held then shuts_down raw ∷ [] else []) h
  last-Agrees false names e e' stands = cc
  last-Agrees true (name ∷ names) e e' stands = cc
  last-Agrees true [] e e' stands = (
    (someone raw (viewed true []) h stands (held-there []), tt),
    last-Stands raw (viewed true []) h stands (held-there []) (viewed false []) refl refl,
  )

  pub leaving-Agrees :
      (held : Bool) (names : List ℕ)
      → Stands raw (viewed held names) h
      → Agrees raw (viewed false names) (if held then releases sftp raw ∷ [] else []) h
  leaving-Agrees true names stands =
      let v = viewed true names in
      (
        (someone raw v h stands (held-there names), tt),
        release-Stands raw v h stands (held-there names) (viewed false names) (ground arith),
      )
  leaving-Agrees false names stands = (tt, stands)

  pub using-Agrees :
      (held : Bool) (names : List ℕ)
      → let v = viewed held names in
        Stands raw v h → Agrees raw v (if held then uses sftp raw ∷ [] else []) h
  using-Agrees true names stands =
      let v = viewed true names in
      (
        (someone raw v h stands (held-there names), tt),
        use-Stands raw v h stands (held-there names),
      )
  using-Agrees false names stands = (tt, stands)

  pub using_file-Agrees :
      (v : View) (name : ℕ)
      → Stands raw v h
      → Agrees raw v (if has name v.names then uses sftp raw ∷ [] else []) h
  using_file-Agrees v name stands = elim (Bool-cases (has name v.names)) [
    | inl e ↦
        let shorter = length-without name v.names e in
        let there : ltb 0 (holders_of v) ≡ true = ground arith in
        rw e ((someone raw v h stands there, tt), use-Stands raw v h stands there)
    | inr e ↦ rw e (tt, stands)
  ]
