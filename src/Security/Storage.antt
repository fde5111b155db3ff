-- ===== src/Security/Storage.antt =====
-- The checks of buckets, volumes and snapshots of internal/findings/security.go.
use aws_explorer.Prelude.{
  Bool, true, false, not, Option, none, some, List, [], ◌∷◌, ◌++◌, if◌then◌else◌, flat_map, map,
}
use aws_explorer.Go.Text.{Text, str, eq_text}
use aws_explorer.Security.Types.{warning, critical, Finding, SecBucket, SecVolume, SecuritySnapshot}

unfoldable pub when : Bool → Finding → List Finding
when true f = f ∷ []
when false f = []

-- `p != nil && *p`
unfoldable pub is_known_true : Option Bool → Bool
is_known_true none = false
is_known_true (some b) = b

-- `p != nil && !*p`
unfoldable pub is_known_false : Option Bool → Bool
is_known_false none = false
is_known_false (some b) = not b

unfoldable pub bucket_region : SecBucket → Text
bucket_region b = if eq_text b.region [] then str "global" else b.region

unfoldable pub check_bucket : SecBucket → List Finding
unfolding when is_known_true is_known_false bucket_region
check_bucket b =
    when (is_known_true b.policy_public) (record {
      id = str "SEC-S3-001";
      severity = critical;
      service = str "s3";
      region = bucket_region b;
      resource = b.name;
      title = str "S3 bucket is public";
      detail = str "The bucket policy status reports this bucket as public.";
      fix =
          str "Remove the public statements from the bucket policy, or enable Public Access Block.";
    })
    ++ (when (is_known_false b.pab_all_on) (record {
      id = str "SEC-S3-002";
      severity = critical;
      service = str "s3";
      region = bucket_region b;
      resource = b.name;
      title = str "S3 Public Access Block is not fully enabled";
      detail =
          str
            "One or more of the four Public Access Block settings is off (or no configuration exists), so a policy or ACL change can expose the bucket.";
      fix =
          str
            "Enable all four Public Access Block settings on the bucket (and consider the account-level block).";
    })
        ++ when (is_known_false b.encrypted) (record {
          id = str "SEC-S3-003";
          severity = warning;
          service = str "s3";
          region = bucket_region b;
          resource = b.name;
          title = str "S3 bucket has no default encryption configuration";
          detail = str "Objects uploaded without an encryption header are stored unencrypted.";
          fix = str "Enable default encryption (SSE-S3 or SSE-KMS) on the bucket.";
        }))

unfoldable pub volume_finding : Text → SecVolume → Finding
volume_finding region v = record {
  id = str "SEC-EBS-001";
  severity = warning;
  service = str "ec2";
  region = region;
  resource = v.id;
  title = str "EBS volume is not encrypted";
  detail = str "Snapshots and copies of this volume inherit the unencrypted state.";
  fix =
      str
        "Snapshot the volume, copy the snapshot with encryption, and recreate the volume from it.";
}

unfoldable pub default_encryption_finding : Text → Finding
default_encryption_finding region = record {
  id = str "SEC-EBS-002";
  severity = warning;
  service = str "ec2";
  region = region;
  resource = str "account";
  title = str "EBS default encryption is off in this region";
  detail = str "New volumes created without an explicit setting are unencrypted.";
  fix = str "Enable EBS encryption by default for the region (EnableEbsEncryptionByDefault).";
}

unfoldable pub check_sec_volumes : SecuritySnapshot → List Finding
unfolding when flat_map volume_finding default_encryption_finding is_known_false
check_sec_volumes snap =
    flat_map (λ v. when (not v.encrypted) (volume_finding snap.region v)) snap.volumes
    ++ when (is_known_false snap.ebs_default_encryption) (default_encryption_finding snap.region)

unfoldable pub ebs_snapshot_finding : Text → Text → Finding
ebs_snapshot_finding region id = record {
  id = str "SEC-SNAP-001";
  severity = critical;
  service = str "ec2";
  region = region;
  resource = id;
  title = str "EBS snapshot is shared publicly";
  detail = str "Anyone with an AWS account can copy this snapshot and read its data.";
  fix = str "Remove the 'all' create-volume permission (ModifySnapshotAttribute).";
}

unfoldable pub rds_snapshot_finding : Text → Text → Finding
rds_snapshot_finding region id = record {
  id = str "SEC-RDS-003";
  severity = critical;
  service = str "rds";
  region = region;
  resource = id;
  title = str "RDS snapshot is shared publicly";
  detail = str "Anyone with an AWS account can restore this snapshot and read the database.";
  fix = str "Remove 'all' from the snapshot's restore attribute (ModifyDBSnapshotAttribute).";
}

unfoldable pub check_public_snapshots : SecuritySnapshot → List Finding
unfolding ebs_snapshot_finding rds_snapshot_finding
check_public_snapshots snap =
    map (ebs_snapshot_finding snap.region) snap.public_ebs_snapshots
    ++ map (rds_snapshot_finding snap.region) snap.public_rds_snapshots
