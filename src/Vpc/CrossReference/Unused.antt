-- ===== src/Vpc/CrossReference/Unused.antt =====
-- The report of unused security groups against the relations of a group.
use mathlib.Core.List.Memᴰ
use aws_explorer.Prelude.{
  ◌≡◌, ◌≢◌, refl, sym, ap, subst, ◌∙◌, ◌↔◌, inl, inr, ⊎_elim, true, false, not, List, [], ◌∷◌, map,
  Memᴰ, arith, Bool-cases, Option-cases, find, find-some, find-none, filter, Memᴰ-filter,
  Memᴰ-filter_of, flat_map, Memᴰ-flat_map, Memᴰ-flat_map_of, flat_map_nil, nil_of, nil_not,
}
use aws_explorer.Go.Text.{
  Text, str, eq_text, eq_text_iff, eq_text_sound, equal_fold, has_prefix, member, member_iff,
}
use aws_explorer.Vpc.Types.{Snapshot, SgRule, SgInfo, SubnetInfo, EniInfo}
use aws_explorer.Vpc.Findings.Types.{Finding, when, Memᴰ-when, Memᴰ-when_of}
use aws_explorer.Vpc.Findings.Groups.{
  used_groups, used_subnets, unused_group_finding, empty_subnet_finding, is_orphan_group,
  orphans_in, check_orphans,
}
use aws_explorer.Vpc.CrossReference.Groups.{group, has_items, is_nonempty}
use aws_explorer.Vpc.CrossReference.{
  attached_label, reference, references_from, xref_security_group, relations_of, shown_groups,
  cross_reference,
}

module _ (snap : Snapshot) (id : Text) where
  abbrev NotAttached : Type 0
  NotAttached = (e : EniInfo) → Memᴰ e snap.network_interfaces → Memᴰ id e.security_groups → ⊥

  -- no rule of the group refers to the ID
  abbrev Silent : SgInfo → Type 0
  Silent sg = (r : SgRule) → Memᴰ r sg.rules → r.source ≢ id

  abbrev AllSilent : Type 0
  AllSilent = (sg : SgInfo) → Memᴰ sg snap.security_groups → Silent sg

  abbrev OthersSilent : Type 0
  OthersSilent = (sg : SgInfo) → Memᴰ sg snap.security_groups → sg.id ≢ id → Silent sg

  -- no group with the ID refers to itself
  abbrev pub NoSelfReference : Type 0
  NoSelfReference = (sg : SgInfo) → Memᴰ sg snap.security_groups → sg.id ≡ id → Silent sg

  module _ (is_sg : has_prefix id (str "sg-") ≡ true) where
    abbrev sources : SgInfo → List Text
    sources sg = filter (λ s. has_prefix s (str "sg-")) (map (λ (r : SgRule). r.source) sg.rules)

    used_iff : (member id (used_groups snap) ≡ false) ↔ (NotAttached × AllSilent)
    unfolding used_groups
    used_iff = (
      λ h.
          let no : Memᴰ id (used_groups snap) → ⊥ =
            λ t. let e = (member_iff id (used_groups snap)).1 t in ground (arith, e, h) in
          (
            λ e m t. no (
                Memᴰ.append_left _ (
                  Memᴰ-flat_map_of (λ (e : EniInfo). e.security_groups) snap.network_interfaces m
                    t)),
            λ sg m r t q. no (
                Memᴰ.append_right _ (
                  Memᴰ-flat_map_of sources snap.security_groups m (
                    Memᴰ-filter_of (λ s. has_prefix s (str "sg-"))
                      (map (λ (r : SgRule). r.source) sg.rules)
                      (subst (λ w. Memᴰ w (map (λ (r : SgRule). r.source) sg.rules)) q
                        (Memᴰ.map (λ (r : SgRule). r.source) t))
                      is_sg))),
          ),
      λ (a, b). elim (Bool-cases (member id (used_groups snap))) [
        | inr e ↦ e
        | inl e ↦
            ⊎_elim
              (λ t.
                let (x, m, u) =
                  Memᴰ-flat_map (λ (e : EniInfo). e.security_groups) snap.network_interfaces t in
                absurd (a x m u))
              (λ t.
                let (sg, m, u) = Memᴰ-flat_map sources snap.security_groups t in
                let (u', _) =
                  Memᴰ-filter (λ s. has_prefix s (str "sg-"))
                    (map (λ (r : SgRule). r.source) sg.rules) u in
                let (r, v, q) = Memᴰ.of_map (λ (r : SgRule). r.source) sg.rules u' in
                absurd (b sg m r v q))
              (Memᴰ.append_cases
                (flat_map (λ (e : EniInfo). e.security_groups) snap.network_interfaces)
                ((member_iff id (used_groups snap)).0 e))
      ],
    )

  references_from_nil : (sg : SgInfo) → (references_from id sg ≡ []) ↔ (sg.id ≢ id → Silent sg)
  unfolding references_from reference
  references_from_nil sg = elim (Bool-cases (eq_text sg.id id)) [
    | inl e ↦ rw e (λ h n. absurd (n (eq_text_sound sg.id id e)), λ h. refl)
    | inr e ↦ elim (Option-cases (find (λ (r : SgRule). eq_text r.source id) sg.rules)) [
      | inl f ↦
          rw (e, f)
            (
              λ h n r m q. ground (
                arith,
                find-none (λ (r : SgRule). eq_text r.source id) sg.rules f r m,
                (eq_text_iff r.source id).1 q,
              ),
              λ h. refl,
            )
      | inr (r, f) ↦
          let (m, q) = find-some (λ (r : SgRule). eq_text r.source id) sg.rules f in
          rw (e, f)
            (
              λ h. ground arith,
              λ h.
                  absurd (
                    h (λ z. ground (arith, eq_text_iff sg.id id)) r m
                      (eq_text_sound r.source id q)),
            )
    ]
  ]

  attached_nil :
      (map attached_label
          (filter (λ (e : EniInfo). member id e.security_groups) snap.network_interfaces)
        ≡ [])
      ↔ NotAttached
  attached_nil = (
    λ h e m t. nil_not _ h (
        Memᴰ.map attached_label (
          Memᴰ-filter_of (λ (e : EniInfo). member id e.security_groups) snap.network_interfaces m
            ((member_iff id e.security_groups).1 t))),
    λ h. nil_of _ (λ x m.
        let (e, m', q) = Memᴰ.of_map attached_label _ m in
        let (t, u) =
          Memᴰ-filter (λ (e : EniInfo). member id e.security_groups) snap.network_interfaces m' in
        h e t ((member_iff id e.security_groups).0 u)),
  )

two_groups :
    (l l' : Text) (a b : List Text)
    → (filter has_items (group l a ∷ group l' b ∷ []) ≡ []) ↔ ((a ≡ []) × (b ≡ []))
unfolding filter has_items is_nonempty group
two_groups l l' [] [] = (λ e. (refl, refl), λ e. refl)
two_groups l l' [] (x ∷ b) = (λ e. ground arith, λ e. ground (arith, e.1))
two_groups l l' (x ∷ a) [] = (λ e. ground arith, λ e. ground (arith, e.0))
two_groups l l' (x ∷ a) (y ∷ b) = (λ e. ground arith, λ e. ground (arith, e.0))

xref_nil :
    (snap : Snapshot) (id : Text)
    → has_prefix id (str "sg-") ≡ true
    → (cross_reference snap id ≡ ([], true)) ↔ (NotAttached snap id × OthersSilent snap id)
unfolding cross_reference shown_groups relations_of xref_security_group
xref_nil snap id h =
    let (f, g) = attached_nil snap id in
    let (f', g') = flat_map_nil (references_from id) snap.security_groups in
    let (f'', g'') =
      two_groups (str "Attached to network interfaces") (str "Referenced by other security groups")
        (map attached_label
          (filter (λ (e : EniInfo). member id e.security_groups) snap.network_interfaces))
        (flat_map (references_from id) snap.security_groups) in
    rw h (
      λ e.
          let (a, b) = f'' (ap (λ p. p.0) e) in
          (f a, λ sg m. (references_from_nil snap id sg).0 (f' b sg m)),
      λ (a, b).
          ap (λ gs. (gs, true))
            (g'' (g a, g' (λ sg m. (references_from_nil snap id sg).1 (b sg m)))),
    )

-- a group that the report is about
abbrev pub IsCandidate : Snapshot → Text → Type 0
IsCandidate snap id =
    (snap.network_interfaces ≢ [])
    × ((sg : SgInfo) × Memᴰ sg snap.security_groups
        × (sg.id ≡ id)
        × (equal_fold sg.name (str "default") ≡ false))

titles : str "Subnet has no network interfaces" ≢ str "Security group appears unused"
unfolding str eq_text
titles e = ground (
  arith,
  eq_text_iff (str "Subnet has no network interfaces") (str "Security group appears unused"),
)

orphans_iff :
    (es : List EniInfo) (snap : Snapshot) (id : Text)
    → ((f : Finding) × Memᴰ f (orphans_in es snap)
        × (f.title ≡ str "Security group appears unused")
        × (f.resource ≡ id))
      ↔ ((es ≢ [])
          × ((sg : SgInfo) × Memᴰ sg snap.security_groups
              × (sg.id ≡ id)
              × (is_orphan_group (used_groups snap) sg ≡ true)))
unfolding orphans_in unused_group_finding empty_subnet_finding
orphans_iff [] snap id = (λ x. absurd (Memᴰ.not-nil x.1), λ x. absurd (x.0 refl))
orphans_iff (e ∷ es) snap id =
    let groups =
      λ (sg : SgInfo). when (is_orphan_group (used_groups snap) sg) (unused_group_finding sg) in
    let subnets =
      λ (s : SubnetInfo). when (not (member s.id (used_subnets snap))) (empty_subnet_finding s) in
    (
      λ (f, m, t, q).
          ⊎_elim
            (λ u.
              let (sg, a, v) = Memᴰ-flat_map groups snap.security_groups u in
              let (b, w) =
                Memᴰ-when (is_orphan_group (used_groups snap) sg) (unused_group_finding sg) v in
              ((λ z. ground arith), (sg, a, sym (ap (λ (x : Finding). x.resource) w) ∙ q, b)))
            (λ u.
              let (s, a, v) = Memᴰ-flat_map subnets snap.subnets u in
              let (b, w) =
                Memᴰ-when (not (member s.id (used_subnets snap))) (empty_subnet_finding s) v in
              absurd (titles (sym (ap (λ (x : Finding). x.title) w) ∙ t)))
            (Memᴰ.append_cases (flat_map groups snap.security_groups) m),
      λ (n, (sg, a, q, b)). (
        unused_group_finding sg,
        Memᴰ.append_left (flat_map subnets snap.subnets) (
            Memᴰ-flat_map_of groups snap.security_groups a
              (Memᴰ-when_of (is_orphan_group (used_groups snap) sg) (unused_group_finding sg) b)),
        refl,
        q,
      ),
    )

-- A security group is reported as unused if and only if the snapshot has interfaces, the group is
-- not a default one, it has no relations to show, and no group with its ID refers to itself.
pub unused_iff :
    (snap : Snapshot) (id : Text)
    → has_prefix id (str "sg-") ≡ true
    → ((f : Finding) × Memᴰ f (check_orphans snap)
        × (f.title ≡ str "Security group appears unused")
        × (f.resource ≡ id))
      ↔ (IsCandidate snap id × (cross_reference snap id ≡ ([], true)) × NoSelfReference snap id)
unfolding check_orphans is_orphan_group
unused_iff snap id h =
    let (f, g) = orphans_iff snap.network_interfaces snap id in
    let (f', g') = used_iff snap id h in
    let (f'', g'') = xref_nil snap id h in
    (
      λ x.
          let (n, (sg, m, q, b)) = f x in
          let (na, all) = f' (subst (λ w. member w (used_groups snap) ≡ false) q (ground arith)) in
          ((n, (sg, m, q, ground arith)), g'' (na, λ s t z. all s t), λ s t z. all s t),
      λ ((n, (sg, m, q, b)), x, self).
          let (na, others) = f'' x in
          let u = g' (
            na,
            λ s t. elim (Bool-cases (eq_text s.id id)) [
              | inl e ↦ self s t (eq_text_sound s.id id e)
              | inr e ↦ others s t (λ z. ground (arith, eq_text_iff s.id id))
            ],
          ) in
          g (
            n,
            (sg, m, q, rw (b, subst (λ w. member w (used_groups snap) ≡ false) (sym q) u) refl),
          ),
    )
