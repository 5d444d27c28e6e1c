-- ===== src/Operator/Profiles.antt =====
-- internal/operator/profiles.go. The fields of a probe and a selection that the code does not look at
-- are of the parameter types P and S.
pub mod Resolution
use egressfox.Endpoint.{is_empty}
use egressfox.Selection.{contains_key}
use egressfox.Base.Bytes.{eq_bytes, Bytes, ascii}
use egressfox.Base.{
  ℕ, zero, suc, ◌+◌, ◌-◌, ◌*◌, ◌≤◌, ◌<◌, ◌≡◌, refl, sym, ap, subst, ◌∙◌, ◌⊎◌, inl, inr, Bool, true,
  false, not, ◌&&◌, ◌||◌, Option, none, some, List, [], ◌∷◌, ◌++◌, map, arith, ltb, leb, ◌==◌,
  if◌then◌else◌, if_rule, Bool-cases, Option-cases, is_none, length, All, Result, ok, err,
  Result-cases, ℤ, ltb_ℤ, pos, fail_if, ◌>>◌, ◌>>=◌,
}

abbrev pub in_range : ℕ → ℕ → ℕ → Bool
in_range low high c = leb low c && leb c high

abbrev pub is_name_character : ℕ → Bool
is_name_character c = in_range b'a' b'z' c || in_range b'0' b'9' c || c == b'-'

unfoldable pub all_name_characters : Bytes → Bool
all_name_characters [] = true
all_name_characters (c ∷ cs) = is_name_character c && all_name_characters cs

unfoldable pub ends_in_dash : ℕ → Bytes → Bool
ends_in_dash c [] = c == b'-'
ends_in_dash c (d ∷ ds) = ends_in_dash d ds

-- validProfileName. A byte outside ASCII is no name character, and no more is its rune.
unfoldable pub valid_profile_name : Bytes → Bool
unfolding all_name_characters ends_in_dash
valid_profile_name [] = false
valid_profile_name (c ∷ cs) =
    leb (length (c ∷ cs)) 63
    && in_range b'a' b'z' c
    && not (ends_in_dash c cs)
    && all_name_characters cs

module _ (P S : Type 0) where
  pub record ProbeSpec : Type 0 where
    pub target_secret_name : Bytes
    pub target_secret_key : Bytes
    pub other : P

  pub record SelectionSpec : Type 0 where
    pub top_n : ℤ
    pub strategy : Bytes
    pub other : S

  pub record TargetProfile : Type 0 where
    pub name : Bytes
    pub probe : ProbeSpec
    pub selection : SelectionSpec

  pub record ProxyPool : Type 0 where
    pub profiles : List TargetProfile
    pub probe : ProbeSpec
    pub selection : SelectionSpec

pub data ProfileError : Type 0 where
  profile_invalid profile_missing : ProfileError

abbrev pub default_name : Bytes
default_name = ascii "default"

abbrev pub names_default : Bytes → Bool
names_default name = is_empty name || eq_bytes name default_name

-- The name whose profile is looked up.
abbrev pub resolved_name : Bytes → Bytes
resolved_name name = if names_default name then default_name else name

module _ {P S : Type 0} where
  unfoldable pub strategy_invalid : SelectionSpec P S → Bool
  unfolding eq_bytes
  strategy_invalid selection =
      not (is_empty selection.strategy)
      && not (eq_bytes selection.strategy (ascii "Adaptive"))
      && not (eq_bytes selection.strategy (ascii "Static"))
      && not (eq_bytes selection.strategy (ascii "LowestLatency"))

  unfoldable pub name_refused : List Bytes → TargetProfile P S → Bool
  unfolding valid_profile_name
  name_refused seen profile =
      not (valid_profile_name profile.name)
      || eq_bytes profile.name default_name
      || contains_key profile.name seen

  unfoldable pub fields_refused : TargetProfile P S → Bool
  unfolding strategy_invalid
  fields_refused profile =
      is_empty profile.probe.target_secret_name
      || is_empty profile.probe.target_secret_key
      || ltb_ℤ profile.selection.top_n (pos 0)
      || ltb_ℤ (pos 10000) profile.selection.top_n
      || strategy_invalid profile.selection

  -- The loop over the profiles, with the names seen and the profile selected before.
  unfoldable pub find_profile :
      Bytes
      → List Bytes
      → Option (TargetProfile P S)
      → List (TargetProfile P S)
      → Result ProfileError (Option (TargetProfile P S))
  find_profile name seen selected [] = ok selected
  find_profile name seen selected (p ∷ ps) =
      let rest =
        find_profile name (p.name ∷ seen) (if eq_bytes p.name name then some p else selected) ps in
      fail_if (name_refused seen p) profile_invalid
      >> fail_if (fields_refused p) profile_invalid
      >> rest

  abbrev pub found :
      ProxyPool P S
      → Bytes
      → Option (TargetProfile P S)
      → Result ProfileError (ProbeSpec P S × SelectionSpec P S)
  found pool name (some profile) = ok (profile.probe, profile.selection)
  found pool name none =
      if eq_bytes name default_name then ok (pool.probe, pool.selection) else err profile_missing

  -- ResolveProfile. A nil pool is `none`.
  unfoldable pub resolve_profile :
      Option (ProxyPool P S) → Bytes → Result ProfileError (ProbeSpec P S × SelectionSpec P S)
  unfolding find_profile
  resolve_profile none name = err profile_invalid
  resolve_profile (some pool) name = do
    fail_if (ltb 8 (length pool.profiles)) profile_invalid
    fail_if (not (names_default name) && not (valid_profile_name name)) profile_invalid
    selected ← find_profile (resolved_name name) [] none pool.profiles
    found pool (resolved_name name) selected
