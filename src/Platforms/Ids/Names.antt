-- ===== src/Platforms/Ids/Names.antt =====
-- The names of a table of which no key stands twice are printed apart: texts as themselves, and two
-- numbers as two texts.
use ha_truenas_ng.Base.{◌≡◌, ap, arith, String, none, [], ◌∷◌, All}
use ha_truenas_ng.Base.Dict
use ha_truenas_ng.Base.Dict.{Dict, NodupKeys, lookup-cons}
use ha_truenas_ng.Base.Int.{ℤ}
use ha_truenas_ng.Value.Key.{Key, number, text, key_eq}
use ha_truenas_ng.Value.Runtime.{Runtime}
use ha_truenas_ng.Platforms.Ids.{names}
use mathlib.Core.List.{Mem, Nodup, Nodup-nil, eq-or-mem_of_mem-cons, not-mem-nil}
use mathlib.Core.Logic.Or
use mathlib.Core.HLevel.{⊥_prop}
use mathlib.Mathlib.Data.List.Nodup as Distinct

-- How Python prints the keys: `str(s)` is `s`, and no two numbers have one text.
pub record PrintsKeys (py : Runtime) : Type 0 where
  pub text_lem : (s : String) → py.str_of_key (text s) ≡ s
  pub number_lem : (m n : ℤ) → py.str_of_key (number m) ≡ py.str_of_key (number n) → m ≡ n

-- The class of a key.
abbrev pub IsText : Key → Type 0
IsText (text s) = Unit
IsText _ = ⊥

abbrev pub IsNumber : Key → Type 0
IsNumber (number n) = Unit
IsNumber _ = ⊥

module _ (py : Runtime) where
  pub PrintsApart : (Key → Type 0) → Type 0
  PrintsApart P = (j k : Key) → P j → P k → py.str_of_key j ≡ py.str_of_key k → j ≡ k

  module _ (laws : PrintsKeys py) where
    pub IsText-PrintsApart : PrintsApart IsText
    unfolding PrintsApart
    IsText-PrintsApart (text s) (text t) p q e =
        let s_lem = laws.text_lem s in
        let t_lem = laws.text_lem t in let same : s ≡ t = cc in ap text same
    IsText-PrintsApart (text s) _ p q e = absurd q
    IsText-PrintsApart _ k p q e = absurd p

    pub IsNumber-PrintsApart : PrintsApart IsNumber
    unfolding PrintsApart
    IsNumber-PrintsApart (number m) (number n) p q e = ap number (laws.number_lem m n e)
    IsNumber-PrintsApart (number m) _ p q e = absurd q
    IsNumber-PrintsApart _ k p q e = absurd p

  module _ (P : Key → Type 0) (apart : PrintsApart P) {V : Type 0} where
    not-Mem-names :
        (k : Key) (d : Dict Key V)
        → P k
        → All (λ x. P x.0) d
        → Dict.lookup k d ≡ none
        → ¬ Mem (py.str_of_key k) (names py d)
    unfolding names PrintsApart
    not-Mem-names k [] p h e m = not-mem-nil m
    not-Mem-names k ((j, v) ∷ d) p (q, h) e m =
        let split = lookup-cons k j v d in
        Or.elim ⊥_prop (eq-or-mem_of_mem-cons m)
          (λ same. let equal : k ≡ j = apart k j p q same in ground arith)
          (λ later. not-Mem-names k d p h (ground arith) later)

    pub names-Nodup : (d : Dict Key V) → NodupKeys d → All (λ x. P x.0) d → Nodup (names py d)
    unfolding names
    names-Nodup [] u h = Nodup-nil
    names-Nodup ((k, v) ∷ d) (fresh, u) (p, h) =
        Distinct.cons (not-Mem-names k d p h fresh) (names-Nodup d u h)
