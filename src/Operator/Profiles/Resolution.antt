-- ===== src/Operator/Profiles/Resolution.antt =====
-- Which profile internal/operator/profiles.go resolves a name to.
use egressfox.Selection.{contains_key}
use egressfox.Base.Bytes.{Bytes, eq_bytes, eq_bytes_sound, eq_bytes_refl}
use egressfox.Operator.Profiles.{
  ProxyPool, name_refused, TargetProfile, resolve_profile, find_profile, names_default, ProbeSpec,
  fields_refused, default_name, SelectionSpec, found, profile_invalid, resolved_name,
  valid_profile_name,
}
use egressfox.Base.{
  ℕ, zero, suc, ◌≡◌, refl, ap, subst, ◌∙◌, ◌⊎◌, inl, inr, true, false, not, ◌&&◌, Option, none,
  some, List, [], ◌∷◌, arith, ltb, if◌then◌else◌, Bool-cases, length, ok, get_elem?, >>-eq-ok,
  >>=-eq-ok,
}

module _ {P S : Type 0} where
  loop-step :
      (name : Bytes) (seen : List Bytes) (selected : Option (TargetProfile P S))
      (p : TargetProfile P S) (ps : List (TargetProfile P S)) (o : Option (TargetProfile P S))
      → find_profile name seen selected (p ∷ ps) ≡ ok o
      → (name_refused seen p ≡ false)
        × (find_profile name (p.name ∷ seen) (if eq_bytes p.name name then some p else selected) ps
            ≡ ok o)
  unfolding find_profile
  loop-step name seen selected p ps o h = elim (Bool-cases (name_refused seen p)) [
    | inl e ↦ absurd (ground arith)
    | inr e ↦ elim (Bool-cases (fields_refused p)) [
      | inl f ↦ absurd (ground arith)
      | inr f ↦ (e, ground arith)
    ]
  ]

  not_seen :
      (seen : List Bytes) (p : TargetProfile P S)
      → name_refused seen p ≡ false
      → (eq_bytes p.name default_name ≡ false) × (contains_key p.name seen ≡ false)
  unfolding name_refused
  not_seen seen p h = ground arith

  -- A name that was seen is not selected again.
  seen-stays :
      (name : Bytes) (seen : List Bytes) (selected : Option (TargetProfile P S))
      (ps : List (TargetProfile P S)) (o : Option (TargetProfile P S))
      → contains_key name seen ≡ true
      → find_profile name seen selected ps ≡ ok o
      → o ≡ selected
  unfolding find_profile contains_key
  seen-stays name seen selected [] o c h = ground arith
  seen-stays name seen selected (p ∷ ps) o c h =
      let (allowed, rest) = loop-step name seen selected p ps o h in
      let (_, fresh) = not_seen seen p allowed in
      elim (Bool-cases (eq_bytes p.name name)) [
        | inl e ↦ absurd (ground (arith, eq_bytes_sound p.name name e))
        | inr e ↦ seen-stays name (p.name ∷ seen) selected ps o (ground arith) (
            subst
              (λ b. find_profile name (p.name ∷ seen) (if b then some p else selected) ps ≡ ok o) e
              rest)
      ]

  -- The profile of the name is the one that is found.
  find_profile_complete :
      (name : Bytes) (seen : List Bytes) (selected : Option (TargetProfile P S))
      (ps : List (TargetProfile P S)) (o : Option (TargetProfile P S)) (index : ℕ)
      (q : TargetProfile P S)
      → find_profile name seen selected ps ≡ ok o
      → get_elem? ps index ≡ some q
      → q.name ≡ name
      → o ≡ some q
  unfolding contains_key
  find_profile_complete name seen selected [] o index q h at named = cc
  find_profile_complete name seen selected (p ∷ ps) o zero q h at named =
      let (_, rest) = loop-step name seen selected p ps o h in
      let is_it : p ≡ q = ground arith in
      let own : eq_bytes p.name name ≡ true =
        subst (λ n. eq_bytes p.name n ≡ true) (ap (λ x. x.name) is_it ∙ named)
          (eq_bytes_refl p.name) in
      seen-stays name (p.name ∷ seen) (some p) ps o (ground arith) (
        subst (λ b. find_profile name (p.name ∷ seen) (if b then some p else selected) ps ≡ ok o)
          own rest)
      ∙ ap some is_it
  find_profile_complete name seen selected (p ∷ ps) o (suc index) q h at named =
      let (_, rest) = loop-step name seen selected p ps o h in
      find_profile_complete name (p.name ∷ seen) _ ps o index q rest at named

  abbrev pub IsNamed : List (TargetProfile P S) → Bytes → TargetProfile P S → Type 0
  IsNamed ps name q = (index : ℕ) × (get_elem? ps index ≡ some q) × (q.name ≡ name)

  -- What is found was selected before, or has the name, which is not the reserved one.
  find_profile_sound :
      (name : Bytes) (seen : List Bytes) (selected : Option (TargetProfile P S))
      (ps : List (TargetProfile P S)) (o : Option (TargetProfile P S))
      → find_profile name seen selected ps ≡ ok o
      → (o ≡ selected)
        ⊎ ((q : TargetProfile P S) × (o ≡ some q)
            × IsNamed ps name q
            × (eq_bytes q.name default_name ≡ false))
  unfolding find_profile
  find_profile_sound name seen selected [] o h = inl (ground arith)
  find_profile_sound name seen selected (p ∷ ps) o h =
      let (allowed, rest) = loop-step name seen selected p ps o h in
      elim (find_profile_sound name (p.name ∷ seen) _ ps o rest) [
        | inr (q, at, (index, there, named), other) ↦ inr (q, at, (suc index, there, named), other)
        | inl e ↦ elim (Bool-cases (eq_bytes p.name name)) [
          | inl own ↦ inr (
            p,
            subst (λ b. o ≡ (if b then some p else selected)) own e,
            (0, refl, eq_bytes_sound p.name name own),
            (not_seen seen p allowed).0,
          )
          | inr other ↦ inl (subst (λ b. o ≡ (if b then some p else selected)) other e)
        ]
      ]

  selected_profile :
      (pool : ProxyPool P S) (name : Bytes) (r : ProbeSpec P S × SelectionSpec P S)
      → resolve_profile (some pool) name ≡ ok r
      → (o : Option (TargetProfile P S)) × (find_profile (resolved_name name) [] none pool.profiles
          ≡ ok o)
        × (found pool (resolved_name name) o ≡ ok r)
  unfolding resolve_profile
  selected_profile pool name r h =
      let (_, more) = >>-eq-ok (ltb 8 (length pool.profiles)) profile_invalid _ h in
      let (_, rest) =
        >>-eq-ok (not (names_default name) && not (valid_profile_name name)) profile_invalid _
          more in
      >>=-eq-ok (find_profile (resolved_name name) [] none pool.profiles) _ rest

  -- ResolveProfile never mixes a probe and a selection: where it returns a pair, the pair is that of
  -- the pool itself and the name is the reserved one, or it is that of a profile with the name,
  -- which is not the reserved one.
  pub resolve_profile_sound :
      (pool : ProxyPool P S) (name : Bytes) (r : ProbeSpec P S × SelectionSpec P S)
      → resolve_profile (some pool) name ≡ ok r
      → ((eq_bytes (resolved_name name) default_name ≡ true) × (r ≡ (pool.probe, pool.selection)))
        ⊎ ((q : TargetProfile P S) × IsNamed pool.profiles (resolved_name name) q
            × (eq_bytes q.name default_name ≡ false)
            × (r ≡ (q.probe, q.selection)))
  resolve_profile_sound pool name r h =
      let (o, searched, answer) = selected_profile pool name r h in
      elim (find_profile_sound (resolved_name name) [] none pool.profiles o searched) [
        | inl e ↦ inl (own_pair (subst (λ x. found pool (resolved_name name) x ≡ ok r) e answer))
        | inr (q, at, named, other) ↦ inr (
          q,
          named,
          other,
          its_pair q (subst (λ x. found pool (resolved_name name) x ≡ ok r) at answer),
        )
      ]
    where
      own_pair :
          found pool (resolved_name name) none ≡ ok r
          → (eq_bytes (resolved_name name) default_name ≡ true) × (r ≡ (pool.probe, pool.selection))
      own_pair k = elim (Bool-cases (eq_bytes (resolved_name name) default_name)) [
        | inl e ↦ (e, ground arith)
        | inr e ↦ absurd (ground arith)
      ]

      its_pair :
          (q : TargetProfile P S)
          → found pool (resolved_name name) (some q) ≡ ok r
          → r ≡ (q.probe, q.selection)
      its_pair q k = ground arith

  -- Where ResolveProfile succeeds, it returns the pair of every profile that has the name: the names
  -- are distinct, and the order of the profiles does not matter.
  pub resolve_profile_complete :
      (pool : ProxyPool P S) (name : Bytes) (r : ProbeSpec P S × SelectionSpec P S)
      (q : TargetProfile P S)
      → resolve_profile (some pool) name ≡ ok r
      → IsNamed pool.profiles (resolved_name name) q
      → r ≡ (q.probe, q.selection)
  resolve_profile_complete pool name r q h (index, at, named) =
      let (o, searched, answer) = selected_profile pool name r h in
      let it =
        find_profile_complete (resolved_name name) [] none pool.profiles o index q searched at
          named in
      let pair = subst (λ x. found pool (resolved_name name) x ≡ ok r) it answer in ground arith
