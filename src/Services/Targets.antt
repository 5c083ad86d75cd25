-- ===== src/Services/Targets.antt =====
-- Which entry a service call acts on.
use ha_truenas_ng.Base.{
  ◌≡◌, refl, sym, String, Bool, true, false, Option, none, some, List, [], ◌∷◌, string_eq, arith,
  All, if◌then◌else◌,
}
use ha_truenas_ng.Result.{ok, ok-injective}
use ha_truenas_ng.Services.{
  Entry, ConfigEntries, loaded_of, is_among, resolve_entry, checked_entry, only_entry,
}
use mathlib.Core.Path.{subst}

-- What Home Assistant promises of its entries: those of a domain have it, and two that have one
-- identifier are the same.
pub record IsConsistent (H : ConfigEntries) : Type 0 where
  pub domain_lem : (d : String) → All (λ e. e.domain ≡ d) (H.async_entries d)
  pub identifier_lem :
      (id d : String) (e : Entry)
      → H.async_get_entry id ≡ some e
      → All (λ f. e.entry_id ≡ f.entry_id → e ≡ f) (H.async_entries d)

keep-All :
    (Q : Entry → Type 0) (b : Bool) (e : Entry) (es : List Entry)
    → (b ≡ true → Q e)
    → All Q es
    → All Q (if b then e ∷ es else es)
keep-All Q true e es q h = (q refl, h)
keep-All Q false e es q h = h

loaded_of-All :
    (P : Entry → Type 0) (es : List Entry)
    → All P es
    → All (λ e. (e.is_loaded ≡ true) × P e) (loaded_of es)
unfolding loaded_of
loaded_of-All P [] h = tt
loaded_of-All P (e ∷ es) (p, h) =
    keep-All (λ e. (e.is_loaded ≡ true) × P e) e.is_loaded e (loaded_of es) (λ q. (q, p))
      (loaded_of-All P es h)

-- An entry that is among others, and equals each of them that has its identifier.
among-All :
    (P : Entry → Type 0) (e : Entry) (es : List Entry)
    → is_among e es ≡ true
    → All (λ f. (e.entry_id ≡ f.entry_id → e ≡ f) × P f) es
    → P e
unfolding is_among
among-All P e [] h all = cc
among-All P e (f ∷ es) h ((same, p), all) = elim (string_eq.dec e.entry_id f.entry_id) [
  | yes q ↦ subst P (sym (same q)) p
  | no q ↦ among-All P e es (ground arith) all
]

checked_entry-ok :
    (id : String) (loaded : List Entry) (o : Option Entry) (e : Entry)
    → checked_entry id loaded o ≡ ok e
    → (o ≡ some e) × (e.domain ≡ "truenas_ng") × (is_among e loaded ≡ true)
checked_entry-ok id loaded none e h = cc
checked_entry-ok id loaded (some f) e h = ground arith

All-both : (P Q : Entry → Type 0) (es : List Entry) → All P es → All Q es → All (λ e. P e × Q e) es
All-both P Q [] p q = tt
All-both P Q (e ∷ es) (p, ps) (q, qs) = ((p, q), All-both P Q es ps qs)

All-loaded : (P : Entry → Type 0) (es : List Entry) → All P es → All P (loaded_of es)
unfolding loaded_of
All-loaded P [] h = tt
All-loaded P (e ∷ es) (p, h) = keep-All P e.is_loaded e (loaded_of es) (λ _. p) (All-loaded P es h)

-- A loaded entry of the integration.
abbrev pub IsTarget : Entry → Type 0
IsTarget e = (e.is_loaded ≡ true) × (e.domain ≡ "truenas_ng")

only_entry-All :
    (P : Entry → Type 0) (es : List Entry) (e : Entry) → All P es → only_entry es ≡ ok e → P e
only_entry-All P [] e h p = cc
only_entry-All P (f ∷ []) e (h, _) p = subst P (ok-injective p) h
only_entry-All P (f ∷ g ∷ es) e h p = cc

module _ (H : ConfigEntries) (C : IsConsistent H) where
  loaded-All : All IsTarget (loaded_of (H.async_entries "truenas_ng"))
  loaded-All =
      loaded_of-All (λ e. e.domain ≡ "truenas_ng") (H.async_entries "truenas_ng")
        (C.domain_lem "truenas_ng")

  -- If Home Assistant's lists of entries are consistent, a service call acts, whether it names an
  -- entry or not, on an entry that is loaded and is of the integration.
  pub resolve_entry-loaded :
      (entry_id : Option String) (e : Entry) → resolve_entry H entry_id ≡ ok e → IsTarget e
  unfolding resolve_entry
  resolve_entry-loaded none e h = only_entry-All IsTarget _ e loaded-All h
  resolve_entry-loaded (some id) e h =
      let (found, _, among) = checked_entry-ok id _ _ e h in
      among-All IsTarget e (loaded_of (H.async_entries "truenas_ng")) among (
        All-both _ IsTarget _
          (All-loaded (λ f. e.entry_id ≡ f.entry_id → e ≡ f) _
            (C.identifier_lem id "truenas_ng" e found))
          loaded-All)
