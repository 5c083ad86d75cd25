-- ===== src/Platforms/Prefixes.antt =====
-- The unique ids of a platform's entities: f"{host_id}_app_{name}_switch" and the like. Ids of one
-- kind differ where their names do, and ids of two kinds where what stands before the name does.
use ha_truenas_ng.Base.{
  ◌≡◌, ◌≢◌, refl, sym, ◌∙◌, ap, String, ◌<>◌, Bool, true, false, ◌&&◌, List, [], ◌∷◌, ◌++◌, All,
  eqb, arith, ◌⊎◌, inl, inr,
}
use mathlib.Core.Bool.{and-eq-true_iff}
use mathlib.Core.List.{map, Nodup, Nodup-nil, Disjoint}
use mathlib.Core.List.Memᴰ
use mathlib.Core.Logic.{∥∥₁_elim}
use mathlib.Core.HLevel.{⊥_prop}
use mathlib.Core.Path.{subst}
use mathlib.Mathlib.Data.List.Nodup as Distinct
use Prim.Native.Char.{code}
use text.Mathlib.TextLemmas.{
  cons-append, head-eq_of_cons-eq, tail-eq_of_cons-eq, append_cancel_left, append_cancel_right,
  append-nil,
}

-- Two texts that differ before either ends.
unfoldable pub clash : String → String → Bool
clash String.[] q = false
clash (String.◌∷◌ c p) String.[] = false
clash (String.◌∷◌ c p) (String.◌∷◌ d q) =
    let rest = clash p q in elim (eqb (code c) (code d)) [ true ↦ rest | false ↦ true ]

-- Every text of the one list clashes with every text of the other.
unfoldable pub clash_all : String → List String → Bool
clash_all p [] = true
clash_all p (q ∷ qs) = clash p q && clash_all p qs

unfoldable pub clash_each : List String → List String → Bool
clash_each [] qs = true
clash_each (p ∷ ps) qs = clash_all p qs && clash_each ps qs

pub clash-ne : (p q s t : String) → clash p q ≡ true → p <> s ≢ q <> t
unfolding clash
clash-ne String.[] q s t h e = cc
clash-ne (String.◌∷◌ c p) String.[] s t h e = cc
clash-ne (String.◌∷◌ c p) (String.◌∷◌ d q) s t h e =
    let e' = sym (cons-append c p s) ∙ (e ∙ cons-append d q t) in
    let e₁ : c ≡ d = head-eq_of_cons-eq e' in
    let e₂ : p <> s ≡ q <> t = tail-eq_of_cons-eq e' in
    let e₃ : code c ≡ code d = ap code e₁ in let rest = clash-ne p q s t in ground arith

module _ {A : Type 0} (P : A → Type 0) where
  pub All-append : (xs ys : List A) → All P xs → All P ys → All P (xs ++ ys)
  All-append [] ys h k = k
  All-append (x ∷ xs) ys (p, h) k = (p, All-append xs ys h k)

  pub All-member : {x : A} {xs : List A} → All P xs → Memᴰ.Memᴰ x xs → P x
  All-member {xs = []} h m = absurd (Memᴰ.not-nil m)
  All-member {xs = y ∷ ys} (p, h) (Memᴰ.head e) = subst P (sym e) p
  All-member {xs = y ∷ ys} (p, h) (Memᴰ.tail m) = All-member h m

pub All-imp :
    {A : Type 0} {P Q : A → Type 0} → ((x : A) → P x → Q x) → (xs : List A) → All P xs → All Q xs
All-imp f [] h = h
All-imp f (x ∷ xs) (p, h) = (f x p, All-imp f xs h)

module _ (host_id : String) where
  -- An id that starts with the host's id and one of the prefixes.
  unfoldable pub Starts : List String → String → Type 0
  Starts [] id = ⊥
  Starts (p ∷ ps) id = ((t : String) × (id ≡ host_id <> (p <> t))) ⊎ Starts ps id

  Starts-clash_all :
      (p t id : String) (qs : List String)
      → clash_all p qs ≡ true
      → id ≡ host_id <> (p <> t)
      → Starts qs id
      → ⊥
  unfolding Starts clash_all
  Starts-clash_all p t id [] c e h = absurd h
  Starts-clash_all p t id (q ∷ qs) c e (inl (s, e')) =
      clash-ne p q t s ((and-eq-true_iff (clash p q) (clash_all p qs)).0 c).0
        (append_cancel_left host_id (p <> t) (q <> s) (sym e ∙ e'))
  Starts-clash_all p t id (q ∷ qs) c e (inr w) =
      Starts-clash_all p t id qs ((and-eq-true_iff (clash p q) (clash_all p qs)).0 c).1 e w

  Starts-clash_each :
      (ps qs : List String) (id : String)
      → clash_each ps qs ≡ true
      → Starts ps id
      → Starts qs id
      → ⊥
  unfolding Starts clash_each
  Starts-clash_each [] qs id c h w = absurd h
  Starts-clash_each (p ∷ ps) qs id c (inl (t, e)) w =
      Starts-clash_all p t id qs ((and-eq-true_iff (clash_all p qs) (clash_each ps qs)).0 c).0 e w
  Starts-clash_each (p ∷ ps) qs id c (inr v) w =
      Starts-clash_each ps qs id ((and-eq-true_iff (clash_all p qs) (clash_each ps qs)).0 c).1 v w

  Starts-append_left : (ps qs : List String) (id : String) → Starts ps id → Starts (ps ++ qs) id
  unfolding Starts
  Starts-append_left [] qs id h = absurd h
  Starts-append_left (p ∷ ps) qs id (inl h) = inl h
  Starts-append_left (p ∷ ps) qs id (inr h) = inr (Starts-append_left ps qs id h)

  Starts-append_right : (ps qs : List String) (id : String) → Starts qs id → Starts (ps ++ qs) id
  unfolding Starts
  Starts-append_right [] qs id h = h
  Starts-append_right (p ∷ ps) qs id h = inr (Starts-append_right ps qs id h)

  -- Distinct ids, each of which starts with one of the prefixes.
  pub IsApart : List String → List String → Type 0
  IsApart ps ids = Nodup ids × All (Starts ps) ids

  pub IsApart-Nodup : (ps ids : List String) → IsApart ps ids → Nodup ids
  unfolding IsApart
  IsApart-Nodup ps ids h = h.0

  pub IsApart-of : (ps ids : List String) → Nodup ids → All (Starts ps) ids → IsApart ps ids
  unfolding IsApart
  IsApart-of ps ids n h = (n, h)

  pub IsApart-nil : (ps : List String) → IsApart ps []
  unfolding IsApart
  IsApart-nil ps = (Nodup-nil, tt)

  pub IsApart-append :
      (ps qs xs ys : List String)
      → clash_each ps qs ≡ true
      → IsApart ps xs
      → IsApart qs ys
      → IsApart (ps ++ qs) (xs ++ ys)
  unfolding IsApart
  IsApart-append ps qs xs ys c (n, h) (m, k) = (
    Distinct.append n m apart,
    All-append (Starts (ps ++ qs)) xs ys (All-imp (Starts-append_left ps qs) xs h)
        (All-imp (Starts-append_right ps qs) ys k),
  )
    where
      apart : Disjoint xs ys
      apart id v w = ∥∥₁_elim v ⊥_prop (λ v'. ∥∥₁_elim w ⊥_prop (λ w'.
          Starts-clash_each ps qs id c (All-member (Starts ps) h v') (All-member (Starts qs) k w')))

  -- The ids of the entities of one kind, one for each name.
  pub IsApart-map :
      (p s : String) (names : List String)
      → Nodup names
      → IsApart (p ∷ []) (map (λ t. host_id <> (p <> (t <> s))) names)
  unfolding IsApart Starts
  IsApart-map p s names n = (
    Distinct.map
        (λ x y e. append_cancel_right x y s (
          append_cancel_left p (x <> s) (y <> s)
            (append_cancel_left host_id (p <> (x <> s)) (p <> (y <> s)) e)))
        n,
    starts names,
  )
    where
      starts : (ts : List String) → All (Starts (p ∷ [])) (map (λ t. host_id <> (p <> (t <> s))) ts)
      starts [] = tt
      starts (t ∷ ts) = (inl (t <> s, refl), starts ts)

  pub IsApart-one : (p : String) → IsApart (p ∷ []) ((host_id <> p) ∷ [])
  unfolding IsApart Starts
  IsApart-one p = (
    Distinct.Nodup-singleton (host_id <> p),
    (inl ("", ap (λ t. host_id <> t) (sym (append-nil p))), tt),
  )
