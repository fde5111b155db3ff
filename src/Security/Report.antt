-- ===== src/Security/Report.antt =====
-- The whole report of `AnalyzeSecurity`.
use aws_explorer.Prelude.{◌≡◌, refl, ◌↔◌, false, [], flat_map_nil, append_nil, map_nil}
use aws_explorer.Security.Types.{SecFunction, SecQueue, SecTopic, SecuritySnapshot}
use aws_explorer.Security.Policy.{Json, policy_allows_everyone}
use aws_explorer.Security.Groups.{opened_by, report_ports, check_sec_groups}
use aws_explorer.Security.Storage.{
  check_bucket, ebs_snapshot_finding, rds_snapshot_finding, check_public_snapshots,
}
use aws_explorer.Security.Checks.{
  check_instance, check_instances_imds, check_db_instance, check_lambda_url, check_alarm,
  check_queue_policy, check_topic_policy, analyze_security,
}
use aws_explorer.Security.Ports.{group_nil}
use aws_explorer.Security.Clean.{
  IsClean, when_nil, bucket_nil, instance_nil, alarm_nil, database_nil, volumes_nil,
}

module _ (json : Json) (snap : SecuritySnapshot) where
  function_nil :
      (fn : SecFunction) → (check_lambda_url snap.region fn ≡ []) ↔ (fn.url_no_auth ≡ false)
  unfolding check_lambda_url
  function_nil fn = when_nil fn.url_no_auth _

  queue_nil :
      (q : SecQueue)
      → (check_queue_policy json snap.region q ≡ [])
        ↔ (policy_allows_everyone json q.policy ≡ false)
  unfolding check_queue_policy
  queue_nil q = when_nil (policy_allows_everyone json q.policy) _

  topic_nil :
      (t : SecTopic)
      → (check_topic_policy json snap.region t ≡ [])
        ↔ (policy_allows_everyone json t.policy ≡ false)
  unfolding check_topic_policy
  topic_nil t = when_nil (policy_allows_everyone json t.policy) _

  snapshots_nil :
      (check_public_snapshots snap ≡ [])
      ↔ ((snap.public_ebs_snapshots ≡ []) × (snap.public_rds_snapshots ≡ []))
  unfolding check_public_snapshots
  snapshots_nil =
      let (f, g) = map_nil (ebs_snapshot_finding snap.region) snap.public_ebs_snapshots in
      let (f', g') = map_nil (rds_snapshot_finding snap.region) snap.public_rds_snapshots in
      (
        λ e. let (a, b) = (append_nil _ _).0 e in (f a, f' b),
        λ (a, b). (append_nil _ _).1 (g a, g' b),
      )

  to_clean : analyze_security json snap ≡ [] → IsClean json snap
  unfolding analyze_security check_instances_imds check_sec_groups
  to_clean e =
      let (a₁, r₁) = (append_nil _ _).0 e in
      let (a₂, r₂) = (append_nil _ _).0 r₁ in
      let (a₃, r₃) = (append_nil _ _).0 r₂ in
      let (a₄, r₄) = (append_nil _ _).0 r₃ in
      let (a₅, r₅) = (append_nil _ _).0 r₄ in
      let (a₆, r₆) = (append_nil _ _).0 r₅ in
      let (a₇, r₇) = (append_nil _ _).0 r₆ in
      let (a₈, r₈) = (append_nil _ _).0 r₇ in
      let (a₉, a₁₀) = (append_nil _ _).0 r₈ in
      let (volumes, default) = (volumes_nil snap).0 a₂ in
      let (ebs, rds) = snapshots_nil.0 a₃ in
      record {
        buckets = λ b m. (bucket_nil b).0 ((flat_map_nil check_bucket snap.buckets).0 a₁ b m);
        volumes = volumes;
        default_encryption = default;
        ebs_snapshots = ebs;
        rds_snapshots = rds;
        instances = λ i m.
            (instance_nil snap.region i).0
              ((flat_map_nil (check_instance snap.region) snap.instances).0 a₄ i m);
        groups = λ sg m. (group_nil snap.region sg).0 (
            (flat_map_nil (λ sg. report_ports snap.region sg [] (opened_by sg.rules))
                snap.security_groups).0
              a₅ sg m);
        databases = λ db m.
            (database_nil snap.region db).0
              ((flat_map_nil (check_db_instance snap.region) snap.db_instances).0 a₆ db m);
        functions = λ fn m.
            (function_nil fn).0
              ((flat_map_nil (check_lambda_url snap.region) snap.functions).0 a₇ fn m);
        queues = λ q m.
            (queue_nil q).0
              ((flat_map_nil (check_queue_policy json snap.region) snap.queues).0 a₈ q m);
        topics = λ t m.
            (topic_nil t).0
              ((flat_map_nil (check_topic_policy json snap.region) snap.topics).0 a₉ t m);
        alarms =
            λ a m. (alarm_nil snap a).0 ((flat_map_nil (check_alarm snap) snap.alarms).0 a₁₀ a m);
      }

  of_clean : IsClean json snap → analyze_security json snap ≡ []
  unfolding analyze_security check_instances_imds check_sec_groups
  of_clean c =
      rw
        (
          (flat_map_nil check_bucket snap.buckets).1 (λ b m. (bucket_nil b).1 (c.buckets b m)),
          (volumes_nil snap).1 (c.volumes, c.default_encryption),
          snapshots_nil.1 (c.ebs_snapshots, c.rds_snapshots),
          (flat_map_nil (check_instance snap.region) snap.instances).1
              (λ i m. (instance_nil snap.region i).1 (c.instances i m)),
          (flat_map_nil (λ sg. report_ports snap.region sg [] (opened_by sg.rules))
                snap.security_groups).1
              (λ sg m. (group_nil snap.region sg).1 (c.groups sg m)),
          (flat_map_nil (check_db_instance snap.region) snap.db_instances).1
              (λ db m. (database_nil snap.region db).1 (c.databases db m)),
          (flat_map_nil (check_lambda_url snap.region) snap.functions).1
              (λ fn m. (function_nil fn).1 (c.functions fn m)),
          (flat_map_nil (check_queue_policy json snap.region) snap.queues).1
              (λ q m. (queue_nil q).1 (c.queues q m)),
          (flat_map_nil (check_topic_policy json snap.region) snap.topics).1
              (λ t m. (topic_nil t).1 (c.topics t m)),
          (flat_map_nil (check_alarm snap) snap.alarms).1
              (λ a m. (alarm_nil snap a).1 (c.alarms a m)),
        )
        refl

-- The security report is empty if and only if the snapshot is clean by a description that does not
-- mention findings; facts that are not known count as good.
pub analyze_security_nil :
    (json : Json) (snap : SecuritySnapshot) → (analyze_security json snap ≡ []) ↔ IsClean json snap
analyze_security_nil json snap = (to_clean json snap, of_clean json snap)
