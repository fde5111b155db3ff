-- ===== src/Security/Clean.antt =====
-- When `AnalyzeSecurity` has nothing to report.
use aws_explorer.Prelude.{
  ℕ, ◌+◌, ◌<◌, ◌≡◌, ◌≢◌, refl, ◌↔◌, ◌⊎◌, Bool, true, false, not, Option, none, some, [], Memᴰ,
  arith, flat_map_nil, append_nil,
}
use aws_explorer.Go.Text.{Text, str, equal_fold}
use aws_explorer.Security.Types.{
  Finding, SecBucket, SecVolume, SecInstance, SecSgRule, SecGroup, SecDbInstance, SecFunction,
  SecQueue, SecTopic, SecAlarm, SecuritySnapshot,
}
use aws_explorer.Security.Policy.{Json, policy_allows_everyone}
use aws_explorer.Security.Groups.{sensitive_ports}
use aws_explorer.Security.Storage.{
  when, is_known_true, is_known_false, check_bucket, volume_finding, check_sec_volumes,
}
use aws_explorer.Security.Checks.{check_instance, check_db_instance, alarm_no_data_age, check_alarm}
use aws_explorer.Security.Ports.{Opens}

abbrev pub IsCleanBucket : SecBucket → Type 0
IsCleanBucket b =
    (b.policy_public ≢ some true) × (b.pab_all_on ≢ some false) × (b.encrypted ≢ some false)

-- the instance is gone, has no metadata service, or requires version 2
abbrev pub IsCleanInstance : SecInstance → Type 0
IsCleanInstance i =
    (equal_fold i.state (str "terminated") ≡ true)
    ⊎ (equal_fold i.http_endpoint (str "disabled") ≡ true)
    ⊎ (equal_fold i.http_tokens (str "required") ≡ true)

-- Nothing in the snapshot is exposed, unencrypted or unmonitored; a fact that is not known counts as good.
pub record IsClean (json : Json) (snap : SecuritySnapshot) : Type 0 where
  pub buckets : (b : SecBucket) → Memᴰ b snap.buckets → IsCleanBucket b
  pub volumes : (v : SecVolume) → Memᴰ v snap.volumes → v.encrypted ≡ true
  pub default_encryption : snap.ebs_default_encryption ≢ some false
  pub ebs_snapshots : snap.public_ebs_snapshots ≡ []
  pub rds_snapshots : snap.public_rds_snapshots ≡ []
  pub instances : (i : SecInstance) → Memᴰ i snap.instances → IsCleanInstance i
  pub groups :
      (sg : SecGroup)
      → Memᴰ sg snap.security_groups
      → (r : SecSgRule) → Memᴰ r sg.rules
      → (p : ℕ × Text) → Memᴰ p sensitive_ports
      → Opens r p.0
      → ⊥
  pub databases :
      (db : SecDbInstance)
      → Memᴰ db snap.db_instances
      → (db.publicly_accessible ≡ false) × (db.storage_encrypted ≡ true)
  pub functions : (fn : SecFunction) → Memᴰ fn snap.functions → fn.url_no_auth ≡ false
  pub queues : (q : SecQueue) → Memᴰ q snap.queues → policy_allows_everyone json q.policy ≡ false
  pub topics : (t : SecTopic) → Memᴰ t snap.topics → policy_allows_everyone json t.policy ≡ false
  pub alarms :
      (a : SecAlarm)
      → Memᴰ a snap.alarms
      → (a.state_updated ≡ 0) ⊎ (snap.now < a.state_updated + alarm_no_data_age)

pub when_nil : (b : Bool) (f : Finding) → (when b f ≡ []) ↔ (b ≡ false)
unfolding when
when_nil true f = (λ e. ground arith, λ e. ground arith)
when_nil false f = (λ e. refl, λ e. refl)

known_true_iff : (o : Option Bool) → (is_known_true o ≡ false) ↔ (o ≢ some true)
unfolding is_known_true
known_true_iff none = (λ e z. ground arith, λ h. refl)
known_true_iff (some true) = (λ e z. ground arith, λ h. absurd (h refl))
known_true_iff (some false) = (λ e z. ground arith, λ h. refl)

known_false_iff : (o : Option Bool) → (is_known_false o ≡ false) ↔ (o ≢ some false)
unfolding is_known_false
known_false_iff none = (λ e z. ground arith, λ h. refl)
known_false_iff (some false) = (λ e z. ground arith, λ h. absurd (h refl))
known_false_iff (some true) = (λ e z. ground arith, λ h. refl)

pub bucket_nil : (b : SecBucket) → (check_bucket b ≡ []) ↔ IsCleanBucket b
unfolding check_bucket
bucket_nil b = (
  λ e.
      let (x, r) = (append_nil _ _).0 e in
      let (y, z) = (append_nil _ _).0 r in
      (
        (known_true_iff b.policy_public).0 ((when_nil _ _).0 x),
        (known_false_iff b.pab_all_on).0 ((when_nil _ _).0 y),
        (known_false_iff b.encrypted).0 ((when_nil _ _).0 z),
      ),
  λ (x, y, z).
      rw
        (
          (known_true_iff b.policy_public).1 x,
          (known_false_iff b.pab_all_on).1 y,
          (known_false_iff b.encrypted).1 z,
        )
        refl,
)

pub instance_nil :
    (region : Text) (i : SecInstance) → (check_instance region i ≡ []) ↔ IsCleanInstance i
unfolding check_instance when
instance_nil region i = (λ e. ground arith, λ e. ground arith)

pub alarm_nil :
    (snap : SecuritySnapshot) (a : SecAlarm)
    → (check_alarm snap a ≡ [])
      ↔ ((a.state_updated ≡ 0) ⊎ (snap.now < a.state_updated + alarm_no_data_age))
unfolding check_alarm when
alarm_nil snap a = (λ e. ground arith, λ e. ground arith)

pub database_nil :
    (region : Text) (db : SecDbInstance)
    → (check_db_instance region db ≡ [])
      ↔ ((db.publicly_accessible ≡ false) × (db.storage_encrypted ≡ true))
unfolding check_db_instance when
database_nil region db = (λ e. (ground arith, ground arith), λ (a, b). rw (a, b) refl)

pub volumes_nil :
    (snap : SecuritySnapshot)
    → (check_sec_volumes snap ≡ []) ↔ (
        ((v : SecVolume) → Memᴰ v snap.volumes → v.encrypted ≡ true)
        × (snap.ebs_default_encryption ≢ some false))
unfolding check_sec_volumes
volumes_nil snap =
    let (f, g) =
      flat_map_nil (λ (v : SecVolume). when (not v.encrypted) (volume_finding snap.region v))
        snap.volumes in
    (
      λ e.
          let (a, b) = (append_nil _ _).0 e in
          (
            λ v m. let q = (when_nil _ _).0 (f a v m) in ground arith,
            (known_false_iff snap.ebs_default_encryption).0 ((when_nil _ _).0 b),
          ),
      λ (a, b). (append_nil _ _).1 (
        g (λ v m. (when_nil _ _).1 (let q = a v m in ground arith)),
        (when_nil _ _).1 ((known_false_iff snap.ebs_default_encryption).1 b),
      ),
    )
