-- ===== src/Cli/Pair/Picked.antt =====
-- Which phone crates/syauth-cli/src/pair.rs picks among those of a scan.
use syauth.Base.{
  Bool, true, false, any, Text, List, [], ◌∷◌, ◌++◌, Option, none, some, Result, ok, err, filter,
  ◌≡◌, ◌≢◌, refl, sym, ap, subst, Bool-cases, inl, inr,
}
use syauth.Cli.Pair.{PairCandidate, PairError, TextOps, filter_candidates, pick_unambiguous}

-- The phone has the name that the operator asked for, where one was asked for.
abbrev pub name_fits : TextOps → Option Text → PairCandidate → Bool
name_fits ops none c = true
name_fits ops (some needle) c = ops.contains c.name needle

-- The phone is in the scan, its name fits, and that of no other place of the scan does.
pub record IsOnlyFit (fits : PairCandidate → Bool) (scan : List PairCandidate)
    (chosen : PairCandidate) : Type 0 where
  pub before : List PairCandidate
  pub later : List PairCandidate
  pub parts : scan ≡ before ++ chosen ∷ later
  pub fit : fits chosen ≡ true
  pub none_before : any fits before ≡ false
  pub none_later : any fits later ≡ false

nonempty : {A : Type 0} {x : A} {xs : List A} → [] ≢ x ∷ xs
nonempty h = cc

heads : {x y : PairCandidate} {xs ys : List PairCandidate} → x ∷ xs ≡ y ∷ ys → x ≡ y
heads h = cc

tails : {x y : PairCandidate} {xs ys : List PairCandidate} → x ∷ xs ≡ y ∷ ys → xs ≡ ys
tails h = cc

failed :
    {e : PairError} {c : PairCandidate} → ◌≢◌ {A = Result PairCandidate PairError} (err e) (ok c)
failed h = cc

pick-one :
    (cs : List PairCandidate) (auto : Bool) (c : PairCandidate)
    → pick_unambiguous cs auto ≡ ok c
    → cs ≡ c ∷ []
unfolding pick_unambiguous
pick-one [] auto c h = absurd (failed h)
pick-one (d ∷ []) auto c h = ap (λ (x : PairCandidate). x ∷ []) (same h)
  where
    same : {x : PairCandidate} → ◌≡◌ {A = Result PairCandidate PairError} (ok x) (ok c) → x ≡ c
    same q = cc
pick-one (d ∷ e ∷ rest) true c h = absurd (failed h)
pick-one (d ∷ e ∷ rest) false c h = absurd (failed h)

module _ (fits : PairCandidate → Bool) where
  filter-none : (cs : List PairCandidate) → filter fits cs ≡ [] → any fits cs ≡ false
  filter-none [] h = refl
  filter-none (c ∷ cs) h = elim (Bool-cases (fits c)) [
    | inl e ↦ absurd (nonempty (sym (rw e at h)))
    | inr e ↦ rw e (filter-none cs (rw e at h))
  ]

  filter-IsOnlyFit :
      (cs : List PairCandidate) (c : PairCandidate) → filter fits cs ≡ c ∷ [] → IsOnlyFit fits cs c
  filter-IsOnlyFit [] c h = absurd (nonempty h)
  filter-IsOnlyFit (d ∷ cs) c h = elim (Bool-cases (fits d)) [
    | inl e ↦
        let q : d ∷ filter fits cs ≡ c ∷ [] = rw e at h in
        record {
          before = [];
          later = cs;
          parts = ap (λ (x : PairCandidate). x ∷ cs) (heads q);
          fit = subst (λ (x : PairCandidate). fits x ≡ true) (heads q) e;
          none_before = refl;
          none_later = filter-none cs (tails q);
        }
    | inr e ↦
        let r = filter-IsOnlyFit cs c (rw e at h) in
        record {
          before = d ∷ r.before;
          later = r.later;
          parts = ap (λ (xs : List PairCandidate). d ∷ xs) r.parts;
          fit = r.fit;
          none_before = rw e r.none_before;
          none_later = r.none_later;
        }
  ]

pub pick_unambiguous-IsOnlyFit :
    (ops : TextOps) (scan : List PairCandidate) (peer : Option Text) (auto : Bool)
    (c : PairCandidate)
    → pick_unambiguous (filter_candidates ops scan peer) auto ≡ ok c
    → IsOnlyFit (name_fits ops peer) scan c
unfolding filter_candidates
pick_unambiguous-IsOnlyFit ops scan none auto c h = record {
  before = [];
  later = [];
  parts = pick-one scan auto c h;
  fit = refl;
  none_before = refl;
  none_later = refl;
}
pick_unambiguous-IsOnlyFit ops scan (some needle) auto c h =
    filter-IsOnlyFit (name_fits ops (some needle)) scan c
      (pick-one (filter_candidates ops scan (some needle)) auto c h)
