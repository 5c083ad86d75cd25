-- ===== src/Result/Latest.antt =====
-- Loops that fill a dict from a list: what is found under a key is the last that was stored there.
use ha_truenas_ng.Base.{
  ◌≡◌, refl, sym, ◌∙◌, ap, Option, none, some, List, [], ◌∷◌, Eq, ◌==◌, if◌then◌else◌,
}
use ha_truenas_ng.Base.Dict
use ha_truenas_ng.Base.Dict.{Dict, lookup-insert}
use ha_truenas_ng.Result.{Result, ok, fold_result, bind-ok, ok-injective}

module _ {K V : Type 0} ⦃e : Eq K⦄ where
  -- What an element leaves under `k`, and in the dict, if it is stored as `o`.
  abbrev pub newer : K → Option (K × V) → Option V → Option V
  newer k none found = found
  newer k (some (j, x)) found = if k == j then some x else found

  abbrev pub stored : Option (K × V) → Dict K V → Dict K V
  stored none d = d
  stored (some (j, x)) d = Dict.insert j x d

  lookup-stored :
      (o : Option (K × V)) (k : K) (d : Dict K V)
      → Dict.lookup k (stored o d) ≡ newer k o (Dict.lookup k d)
  lookup-stored none k d = refl
  lookup-stored (some (j, x)) k d = lookup-insert k j x d

module _ {X K V : Type 0} ⦃e : Eq K⦄ where
  -- The last value of a list that is stored under `k`, or else `found`.
  pub latest : (X → Option (K × V)) → K → List X → Option V → Option V
  latest entry k [] found = found
  latest entry k (x ∷ xs) found = latest entry k xs (newer k (entry x) found)

  -- A loop that stores what `entry` gives for each element finds the last under each key.
  pub fold-latest :
      (body : Dict K V → X → Result (Dict K V)) (entry : X → Option (K × V))
      → ((d d' : Dict K V) (x : X) → body d x ≡ ok d' → d' ≡ stored (entry x) d)
      → (xs : List X) (d d' : Dict K V) (k : K) → fold_result body d xs ≡ ok d'
      → Dict.lookup k d' ≡ latest entry k xs (Dict.lookup k d)
  unfolding fold_result latest
  fold-latest body entry step [] d d' k h = ap (Dict.lookup k) (sym (ok-injective h))
  fold-latest body entry step (x ∷ xs) d d' k h =
      let (next, p, q) = bind-ok (body d x) _ h in
      fold-latest body entry step xs next d' k q
      ∙ ap (latest entry k xs) (ap (Dict.lookup k) (step d next x p) ∙ lookup-stored (entry x) k d)
