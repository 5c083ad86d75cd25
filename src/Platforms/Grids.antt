-- ===== src/Platforms/Grids.antt =====
-- The unique ids of a platform that has several entities for one name, as sensor.py has one for each
-- row of a table: f"{host_id}_pool_{guid}_{key}". Two of them differ where their names do, or their
-- keys: no key of a table ends in another behind an underscore.
use ha_truenas_ng.Base.{
  ◌≡◌, ◌≢◌, refl, sym, ◌∙◌, ap, String, ◌<>◌, Bool, true, List, [], ◌∷◌, ◌++◌, All, ◌&&◌, ◌⊎◌, inl,
  inr,
}
use ha_truenas_ng.Platforms.Prefixes.{
  clash, clash_all, clash-ne, All-append, All-imp, All-member, Starts, IsApart, IsApart-of,
}
use mathlib.Core.Bool.{and-eq-true_iff}
use mathlib.Core.HLevel.{⊥_prop}
use mathlib.Core.List.{map, Mem, mem-cast, Nodup, Nodup-nil, Nodup-cons, Disjoint}
use mathlib.Core.List.Memᴰ
use mathlib.Core.Logic.{∥∥₁_elim}
use mathlib.Core.Path.{subst}
use mathlib.Mathlib.Data.List.Nodup as Distinct
use text.Mathlib.TextLemmas.{
  nil-append, cons-append, append_assoc, append-nil, append_cancel_left, append_cancel_right,
}

-- A text read backwards.
unfoldable pub backwards : String → String
backwards String.[] = ""
backwards (String.◌∷◌ c s) = backwards s <> String.◌∷◌ c String.[]

backwards-append : (x s : String) → backwards (x <> s) ≡ backwards s <> backwards x
unfolding backwards
backwards-append String.[] s = ap backwards (nil-append s) ∙ sym (append-nil (backwards s))
backwards-append (String.◌∷◌ c x) s =
    ap backwards (cons-append c x s)
    ∙ (ap (λ t. t <> String.◌∷◌ c String.[]) (backwards-append x s)
        ∙ append_assoc (backwards s) (backwards x) (String.◌∷◌ c String.[]))

-- Texts of which no two, whatever stands before them, are the same.
unfoldable pub ends_apart : List String → Bool
ends_apart [] = true
ends_apart (s ∷ ss) = clash_all (backwards s) (map backwards ss) && ends_apart ss

Differ : String → String → Type 0
Differ s t = (x y : String) → x <> s ≢ y <> t

clash-Differ : (s t : String) → clash (backwards s) (backwards t) ≡ true → Differ s t
unfolding Differ
clash-Differ s t c x y e =
    clash-ne (backwards s) (backwards t) (backwards x) (backwards y) c
      (sym (backwards-append x s) ∙ (ap backwards e ∙ backwards-append y t))

clash_all-Differ :
    (s : String) (ss : List String)
    → clash_all (backwards s) (map backwards ss) ≡ true
    → All (Differ s) ss
unfolding clash_all
clash_all-Differ s [] c = tt
clash_all-Differ s (t ∷ ss) c =
    let k =
      (and-eq-true_iff (clash (backwards s) (backwards t))
          (clash_all (backwards s) (map backwards ss))).0
        c in
    (clash-Differ s t k.0, clash_all-Differ s ss k.1)

ends_apart-cons :
    (s : String) (ss : List String)
    → ends_apart (s ∷ ss) ≡ true
    → All (Differ s) ss × (ends_apart ss ≡ true)
unfolding ends_apart
ends_apart-cons s ss c =
    let k = (and-eq-true_iff (clash_all (backwards s) (map backwards ss)) (ends_apart ss)).0 c in
    (clash_all-Differ s ss k.0, k.1)

pub ends_apart-Nodup : (ss : List String) → ends_apart ss ≡ true → Nodup ss
unfolding Differ
ends_apart-Nodup [] c = Nodup-nil
ends_apart-Nodup (s ∷ ss) c =
    let k = ends_apart-cons s ss c in
    Distinct.cons (λ m. ∥∥₁_elim m ⊥_prop (λ m'. All-member (Differ s) k.0 m' "" "" refl))
      (ends_apart-Nodup ss k.1)

ends_apart-cases :
    (ss : List String) (s t : String)
    → ends_apart ss ≡ true
    → Memᴰ.Memᴰ s ss
    → Memᴰ.Memᴰ t ss
    → (s ≡ t) ⊎ Differ s t
unfolding Differ
ends_apart-cases [] s t c m n = absurd (Memᴰ.not-nil m)
ends_apart-cases (r ∷ ss) s t c (Memᴰ.head e) (Memᴰ.head f) = inl (e ∙ sym f)
ends_apart-cases (r ∷ ss) s t c (Memᴰ.head e) (Memᴰ.tail n) =
    inr (subst (λ u. Differ u t) (sym e) (All-member (Differ r) (ends_apart-cons r ss c).0 n))
ends_apart-cases (r ∷ ss) s t c (Memᴰ.tail m) (Memᴰ.head f) = inr (λ x y e.
    All-member (Differ r) (ends_apart-cons r ss c).0 m y x (ap (λ u. y <> u) (sym f) ∙ sym e))
ends_apart-cases (r ∷ ss) s t c (Memᴰ.tail m) (Memᴰ.tail n) =
    ends_apart-cases ss s t (ends_apart-cons r ss c).1 m n

module _ (host_id p : String) (ss : List String) where
  -- The ids of one name, and of several.
  unfoldable pub row : String → List String
  row n = map (λ s. host_id <> (p <> (n <> s))) ss

  unfoldable pub grid : List String → List String
  grid [] = []
  grid (n ∷ ns) = row n ++ grid ns

  IsIn : List String → String → Type 0
  IsIn ns id =
      (n : String) × (s : String) × Memᴰ.Memᴰ n ns
      × Memᴰ.Memᴰ s ss
      × (id ≡ host_id <> (p <> (n <> s)))

  row-IsIn :
      (n : String) (ns ts : List String)
      → ((t : String) → Memᴰ.Memᴰ t ts → Memᴰ.Memᴰ t ss)
      → All (IsIn (n ∷ ns)) (map (λ s. host_id <> (p <> (n <> s))) ts)
  unfolding IsIn
  row-IsIn n ns [] f = tt
  row-IsIn n ns (t ∷ ts) f = (
    (n, t, Memᴰ.head refl, f t (Memᴰ.head refl), refl),
    row-IsIn n ns ts (λ u m. f u (Memᴰ.tail m)),
  )

  grid-IsIn : (ns : List String) → All (IsIn ns) (grid ns)
  unfolding grid row IsIn
  grid-IsIn [] = tt
  grid-IsIn (n ∷ ns) =
      All-append (IsIn (n ∷ ns)) (row n) (grid ns) (row-IsIn n ns ss (λ t m. m))
        (All-imp (λ id (i, s, m, l, e). (i, s, Memᴰ.tail m, l, e)) (grid ns) (grid-IsIn ns))

  row-grid-Disjoint :
      (n : String) (ns : List String)
      → ends_apart ss ≡ true
      → ¬ Mem n ns
      → Disjoint (row n) (grid ns)
  unfolding row IsIn Differ
  row-grid-Disjoint n ns c fresh id v w = ∥∥₁_elim v ⊥_prop (λ v'. ∥∥₁_elim w ⊥_prop (λ w'.
      let (s, k, e) = Memᴰ.of_map (λ s. host_id <> (p <> (n <> s))) ss v' in
      let (m, t, i, l, f) = All-member (IsIn ns) (grid-IsIn ns) w' in
      let same =
        append_cancel_left p (n <> s) (m <> t)
          (append_cancel_left host_id (p <> (n <> s)) (p <> (m <> t)) (e ∙ f)) in
      elim (ends_apart-cases ss s t c k l) [
        | inl q ↦
            fresh (mem-cast (append_cancel_right n m s (same ∙ ap (λ u. m <> u) (sym q))) ∣ i ∣₁)
        | inr d ↦ d n m same
      ]))

  grid-Nodup : (ns : List String) → ends_apart ss ≡ true → Nodup ns → Nodup (grid ns)
  unfolding grid row
  grid-Nodup [] c n = Nodup-nil
  grid-Nodup (n ∷ ns) c u =
      let k = Nodup-cons.0 u in
      Distinct.append
        (Distinct.map
          (λ x y e. append_cancel_left n x y (
            append_cancel_left p (n <> x) (n <> y)
              (append_cancel_left host_id (p <> (n <> x)) (p <> (n <> y)) e)))
          (ends_apart-Nodup ss c))
        (grid-Nodup ns c k.1) (row-grid-Disjoint n ns c k.0)

  pub grid-IsApart :
      (ns : List String) → ends_apart ss ≡ true → Nodup ns → IsApart host_id (p ∷ []) (grid ns)
  unfolding Starts IsIn
  grid-IsApart ns c n =
      IsApart-of host_id (p ∷ []) (grid ns) (grid-Nodup ns c n)
        (All-imp (λ id (i, s, m, l, e). inl (i <> s, e)) (grid ns) (grid-IsIn ns))

-- The ids that stand in a table as they are.
fixed-Starts :
    (host_id : String) (ss : List String) → All (Starts host_id ss) (map (λ s. host_id <> s) ss)
unfolding Starts
fixed-Starts host_id [] = tt
fixed-Starts host_id (s ∷ ss) = (
  inl ("", ap (λ t. host_id <> t) (sym (append-nil s))),
  All-imp (λ id h. inr h) (map (λ s. host_id <> s) ss) (fixed-Starts host_id ss),
)

pub fixed-IsApart :
    (host_id : String) (ss : List String)
    → ends_apart ss ≡ true
    → IsApart host_id ss (map (λ s. host_id <> s) ss)
fixed-IsApart host_id ss c =
    IsApart-of host_id ss (map (λ s. host_id <> s) ss)
      (Distinct.map (append_cancel_left host_id) (ends_apart-Nodup ss c)) (fixed-Starts host_id ss)
