-- ===== src/Examples/Entries.antt =====
-- The config entries and the issue registry.
use ha_truenas_ng.Base.{
  ◌≡◌, ◌≢◌, refl, sym, ◌∙◌, ap, true, false, none, some, List, [], ◌∷◌, String, ◌&&◌, ◌==◌,
  string_eq, if◌then◌else◌, arith, All, Bool,
}
use ha_truenas_ng.Base.Dict
use ha_truenas_ng.Base.Dict.{Dict}
use ha_truenas_ng.Result.{Result, ok, fold_result}
use ha_truenas_ng.Value.{Value, null, arr, nil, cons, dict, str, field, end, Fields}
use ha_truenas_ng.Value.Access.{get, find, truthy, iterate, items, as_dict}
use ha_truenas_ng.Value.Key.{Key, text, key_eq, hash_key}
use ha_truenas_ng.Services.{Entry, ConfigEntries, resolve_entry}
use ha_truenas_ng.Services.Targets.{IsConsistent, IsTarget, resolve_entry-loaded}
use ha_truenas_ng.Repairs.{
  issue_of, Wanted, domain, wanted_issues, consider, want, severity_of, async_sync_alert_issues,
}
use ha_truenas_ng.Repairs.Flow.{Confirmed, async_step_confirm, async_step_confirm-Confirmed}
use ha_truenas_ng.Repairs.Issues.{Registry, Issue, IsLawful, warning, listed, AreDistinct}
use ha_truenas_ng.Repairs.Sync.{
  settled, async_sync_alert_issues-settled, async_sync_alert_issues-elsewhere,
}

abbrev nas : Entry
nas = record { entry_id = "e1"; domain = "truenas_ng"; is_loaded = true }

abbrev listed_under : Bool → List Entry
listed_under b = if b then nas ∷ [] else []

abbrev entries : ConfigEntries
entries = record {
  async_entries = λ d. listed_under (d == "truenas_ng");
  async_get_entry = λ id. if id == "e1" then some nas else none;
}

entries_domain : (d : String) → All (λ e. e.domain ≡ d) (entries.async_entries d)
entries_domain d = ground arith

entries_identifier :
    (id d : String) (e : Entry)
    → entries.async_get_entry id ≡ some e
    → All (λ f. e.entry_id ≡ f.entry_id → e ≡ f) (entries.async_entries d)
entries_identifier id d e h = ground arith

consistent : IsConsistent entries
consistent = record { domain_lem = entries_domain; identifier_lem = entries_identifier }

resolved : resolve_entry entries (some "e1") ≡ ok nas
unfolding resolve_entry string_eq
resolved = refl

resolve_entry-loaded_example : IsTarget nas
resolve_entry-loaded_example = resolve_entry-loaded entries consistent (some "e1") nas resolved

-- A registry that is a list of distinct issues.
abbrev pub Issues : Type 0
Issues = List (String × Key × Issue)

pub remove : String → Key → Issues → Issues
remove d k [] = []
remove d k ((e, j, issue) ∷ rest) =
    let kept = remove d k rest in if d == e && k == j then kept else (e, j, issue) ∷ kept

listed-remove :
    (l : Issues) (d e : String) (k j : Key)
    → listed e j (remove d k l) ≡ (if e == d && j == k then none else listed e j l)
unfolding remove
listed-remove [] d e k j = ground arith
listed-remove (_ ∷ l) d e k j = ground (arith, listed-remove l d e k j)

pub remove-AreDistinct :
    (l : Issues) (d : String) (k : Key) → AreDistinct l → AreDistinct (remove d k l)
unfolding remove
remove-AreDistinct [] d k u = tt
remove-AreDistinct ((e, j, _) ∷ l) d k (fresh, u) =
    ground (arith, remove-AreDistinct l d k u, listed-remove l d e k j)

pub listed-none : (l : Issues) (d : String) (k : Key) → listed d k (remove d k l) ≡ none
listed-none l d k = ground (arith, listed-remove l d d k k)

abbrev pub kept : Registry
kept = record {
  State = (l : Issues) × AreDistinct l;
  issues = λ s. s.0;
  issue_at = λ s d k. listed d k s.0;
  create = λ s d k issue.
      ((d, k, issue) ∷ remove d k s.0, (listed-none s.0 d k, remove-AreDistinct s.0 d k s.1));
  delete = λ s d k. (remove d k s.0, remove-AreDistinct s.0 d k s.1);
}

kept_create :
    (s : kept.State) (d : String) (k : Key) (issue : Issue) (e : String) (j : Key)
    → kept.issue_at (kept.create s d k issue) e j
      ≡ (if e == d && j == k then some issue else kept.issue_at s e j)
kept_create s d k issue e j = ground (arith, listed-remove s.0 d e k j)

pub lawful : IsLawful kept
lawful = record {
  issue_at-create = kept_create;
  issue_at-delete = λ s d k e j. listed-remove s.0 d e k j;
  listed-issues = λ s d k. refl;
  issues-AreDistinct = λ s. s.1;
}

abbrev pub alert : Fields
alert = field "uuid" (str "u1") (field "level" (str "WARNING") (field "text" (str "hot") end))

abbrev pub hot : Wanted
hot = record { uuid = str "u1"; alert = alert; severity = warning }

abbrev pub wanted : Dict Key Wanted
wanted = (text "u1", hot) ∷ []

pub wanted_lem : wanted_issues (arr (cons (dict alert) nil)) ≡ ok wanted
unfolding wanted_issues consider want severity_of iterate items as_dict truthy get find hash_key
    fold_result string_eq Dict.insert
wanted_lem = refl

async_sync_alert_issues-settled_example :
    kept.issue_at
      (async_sync_alert_issues kept "e1" (some (arr (cons (dict alert) nil))) ([], tt)).1
      domain
      (text "u1")
    ≡ settled "e1" (Dict.lookup (text "u1") wanted) none
async_sync_alert_issues-settled_example =
    async_sync_alert_issues-settled kept lawful "e1" (arr (cons (dict alert) nil)) wanted ([], tt)
      (text "u1") wanted_lem

differs : (λ (s : String). s == "zha") domain ≡ false
unfolding string_eq
differs = refl

same : (λ (s : String). s == "zha") "zha" ≡ true
unfolding string_eq
same = refl

other_domain : "zha" ≢ domain
other_domain p = cc (sym same ∙ (ap (λ s. s == "zha") p ∙ differs))

async_sync_alert_issues-elsewhere_example :
    kept.issue_at
      (async_sync_alert_issues kept "e1" (some (arr (cons (dict alert) nil))) ([], tt)).1
      "zha"
      (text "u1")
    ≡ none
async_sync_alert_issues-elsewhere_example =
    async_sync_alert_issues-elsewhere kept lawful "e1" (some (arr (cons (dict alert) nil))) ([], tt)
      "zha" (text "u1") other_domain

-- A client that dismisses whatever it is asked to, and an issue to confirm.
abbrev pub dismisses : String → List Value → Unit {0} → Result Value × Unit {0}
dismisses method params w = (ok null, w)

abbrev one_issue : kept.State
one_issue =
    kept.create ([], tt) domain (text "u1")
      (issue_of "e1" (record { uuid = str "u1"; alert = alert; severity = warning }))

async_step_confirm-Confirmed_example :
    Confirmed kept
      (λ id. some dismisses)
      lawful
      one_issue
      (text "u1")
      (record { entry_id = str "e1"; uuid = str "u1" })
      (some tt)
      tt
      (async_step_confirm kept
        (λ id. some dismisses)
        (record { entry_id = str "e1"; uuid = str "u1" })
        (some tt)
        one_issue
        tt)
async_step_confirm-Confirmed_example =
    async_step_confirm-Confirmed kept (λ id. some dismisses) lawful one_issue (text "u1")
      (record { entry_id = str "e1"; uuid = str "u1" }) (some tt) tt
