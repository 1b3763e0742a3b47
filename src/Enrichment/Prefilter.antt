-- ===== src/Enrichment/Prefilter.antt =====
-- The prefilter and the profile that it reads (webapp/backend/sources/enrichment.py).
use jobhunt.Prelude.{
  ◌≡◌, refl, Bool, false, not, ◌&&◌, ◌||◌, Option, none, some, Str, codes, List, [], ◌∷◌, any, mem,
  if◌then◌else◌, is_empty,
}
use jobhunt.Queue.Freshness.{strip}
use jobhunt.Scoring.Profile.{Pattern, Profile}
use jobhunt.Scoring.Texts.{Readers, contains, found}

pub record CheapPosting : Type 0 where
  pub title : Str
  pub company : Str
  pub location : Str
  pub remote : Bool

pub data Category : Type 0 where
  location title blocker : Category

pub data Reason : Type 0 where
  non_us_location dc_metro other_state socal_city far_wa_city people_management_title : Reason
  off_focus_role_title staffing_agency_company : Reason

-- None is the verdict that the posting is worth a fetch.
abbrev pub Decision : Type 0
Decision = Option (Category × Reason)

-- A decision, or the AttributeError for a name that the profile does not have.
pub data Decided : Type 0 where
  decided : Decision → Decided
  attribute_error : Str → Decided

-- The profile as the prefilter probes it. An attribute that is missing is none.
pub record ProbedProfile : Type 0 where
  pub non_us_patterns : List Pattern
  pub dc_pattern : Option Pattern
  pub other_state_pattern : Option Pattern
  pub socal_cities : Option (List Str)
  pub far_wa_cities : Option (List Str)
  pub people_management_pattern : Pattern
  pub ic_manager_sub : Str → Str
  pub keywords : List (Str × List Str)
  pub in_scope : List Str
  pub staffing_agencies : List Str

-- The compiled profile that the run service hands over: its location has no other attribute than
-- the patterns outside the US and the cities of the Bay Area.
unfoldable pub probed : Profile → ProbedProfile
probed pf = record {
  non_us_patterns = pf.location.non_us_patterns;
  dc_pattern = none;
  other_state_pattern = none;
  socal_cities = none;
  far_wa_cities = none;
  people_management_pattern = pf.exclusions.people_management_pattern;
  ic_manager_sub = pf.exclusions.ic_manager_sub;
  keywords = pf.families.keywords;
  in_scope = pf.families.in_scope;
  staffing_agencies = pf.employers.staffing_agencies;
}

abbrev excluded : Category → Reason → Decided
excluded c r = decided (some (c, r))

-- One probe of an attribute: what follows is only reached when it is there and does not match.
probe_pattern : Str → Option Pattern → Str → Reason → Decided → Decided
probe_pattern name none loc r rest = attribute_error name
probe_pattern name (some p) loc r rest = if p.search loc then excluded location r else rest

module _ (re : Readers) (pf : ProbedProfile) where
  abbrev pub lowered_in : Str → List Str → Bool
  lowered_in t ks = any (λ (k : Str). contains (re.lower k) t) ks

  probe_cities : Str → Option (List Str) → Str → Reason → Decided → Decided
  probe_cities name none loc r rest = attribute_error name
  probe_cities name (some cities) loc r rest =
      if lowered_in loc cities then excluded location r else rest

  unfoldable pub location_decision : CheapPosting → Decided
  unfolding probe_pattern probe_cities contains
  location_decision p =
      let loc = re.lower (strip p.location) in
      if p.remote || is_empty loc
      then decided none
      else if found pf.non_us_patterns loc
      then excluded location non_us_location
      else probe_pattern (codes "dc_pattern") pf.dc_pattern loc dc_metro (
          probe_pattern (codes "other_state_pattern") pf.other_state_pattern loc other_state (
            probe_cities (codes "socal_cities") pf.socal_cities loc socal_city (
              probe_cities (codes "far_wa_cities") pf.far_wa_cities loc far_wa_city
                (decided none))))

  family_of : List (Str × List Str) → Str → Option Str
  family_of [] t = none
  family_of ((f, ks) ∷ m) t = let rest = family_of m t in if lowered_in t ks then some f else rest

  abbrev off_focus : Option Str → Bool
  off_focus none = false
  off_focus (some f) = not (mem f pf.in_scope)

  unfoldable pub title_decision : CheapPosting → Decision
  unfolding family_of contains
  title_decision p =
      let t = re.lower (strip p.title) in
      if is_empty t
      then none
      else if pf.people_management_pattern.search (pf.ic_manager_sub t)
      then some (title, people_management_title)
      else if off_focus (family_of pf.keywords t)
      then some (title, off_focus_role_title)
      else none

  unfoldable pub blocker_decision : CheapPosting → Decision
  unfolding contains
  blocker_decision p =
      let company = re.lower (strip p.company) in
      if not (is_empty company) && lowered_in company pf.staffing_agencies
      then some (blocker, staffing_agency_company)
      else none

  abbrev pub or_decide : Decision → Decision → Decision
  or_decide none d = d
  or_decide (some c) d = some c

  -- The first exclusion wins.
  after_location : CheapPosting → Decided → Decided
  after_location p (attribute_error name) = attribute_error name
  after_location p (decided (some c)) = decided (some c)
  after_location p (decided none) = decided (or_decide (title_decision p) (blocker_decision p))

  unfoldable pub prefilter_posting : CheapPosting → Decided
  unfolding after_location
  prefilter_posting p = after_location p (location_decision p)

-- An on-site posting of the United States, as far as the prefilter can tell.
pub record IsDomestic (re : Readers) (pf : Profile) (p : CheapPosting) : Type 0 where
  pub on_site : p.remote ≡ false
  pub placed : is_empty (re.lower (strip p.location)) ≡ false
  pub not_abroad : found pf.location.non_us_patterns (re.lower (strip p.location)) ≡ false

pub prefilter_posting-raises :
    (re : Readers) (pf : Profile) (p : CheapPosting)
    → IsDomestic re pf p
    → prefilter_posting re (probed pf) p ≡ attribute_error (codes "dc_pattern")
unfolding prefilter_posting location_decision probed
prefilter_posting-raises re pf p h = rw (h.on_site, h.placed, h.not_abroad) refl
