-- ===== src/Security/Checks.antt =====
-- `AnalyzeSecurity` of internal/findings/security.go and its other checks.
use aws_explorer.Prelude.{
  ℕ, ◌+◌, ◌-◌, ◌*◌, ◌/◌, ◌==◌, ltb, ◌||◌, not, List, [], ◌∷◌, ◌++◌, if◌then◌else◌, flat_map,
}
use aws_explorer.Go.Text.{Text, str, eq_text, equal_fold, cat}
use aws_explorer.Go.Number.{itoa}
use aws_explorer.Security.Types.{
  info, warning, critical, Finding, SecInstance, SecDbInstance, SecFunction, SecQueue, SecTopic,
  SecAlarm, SecuritySnapshot,
}
use aws_explorer.Security.Policy.{Json, policy_allows_everyone}
use aws_explorer.Security.Groups.{check_sec_groups}
use aws_explorer.Security.Storage.{when, check_bucket, check_sec_volumes, check_public_snapshots}

unfoldable pub imds_finding : Text → SecInstance → Finding
imds_finding region i = record {
  id = str "SEC-EC2-001";
  severity = warning;
  service = str "ec2";
  region = region;
  resource =
      if not (eq_text i.name []) then cat (i.id ∷ str " (" ∷ i.name ∷ str ")" ∷ []) else i.id;
  title = str "EC2 instance allows IMDSv1";
  detail =
      str
        "HttpTokens is not 'required', so the unauthenticated v1 metadata service — the classic SSRF credential-theft vector — is available.";
  fix = str "Require IMDSv2: aws ec2 modify-instance-metadata-options --http-tokens required.";
}

unfoldable pub check_instance : Text → SecInstance → List Finding
unfolding when imds_finding
check_instance region i =
    if equal_fold i.state (str "terminated") || equal_fold i.http_endpoint (str "disabled")
    then []
    else when (not (equal_fold i.http_tokens (str "required"))) (imds_finding region i)

unfoldable pub check_instances_imds : SecuritySnapshot → List Finding
unfolding flat_map check_instance
check_instances_imds snap = flat_map (check_instance snap.region) snap.instances

unfoldable pub check_db_instance : Text → SecDbInstance → List Finding
unfolding when
check_db_instance region db =
    when db.publicly_accessible (record {
      id = str "SEC-RDS-001";
      severity = critical;
      service = str "rds";
      region = region;
      resource = db.id;
      title = str "RDS instance is publicly accessible";
      detail =
          str
            "PubliclyAccessible is on: the instance resolves to a public IP and is reachable from the internet (subject to its security groups).";
      fix = str "Disable public accessibility, or strictly limit the security group sources.";
    })
    ++ when (not db.storage_encrypted) (record {
      id = str "SEC-RDS-002";
      severity = warning;
      service = str "rds";
      region = region;
      resource = db.id;
      title = str "RDS storage is not encrypted";
      detail = str "Storage encryption cannot be enabled in place.";
      fix = str "Snapshot, copy the snapshot with encryption, and restore.";
    })

unfoldable pub check_lambda_url : Text → SecFunction → List Finding
unfolding when
check_lambda_url region fn = when fn.url_no_auth (record {
  id = str "SEC-LAMBDA-001";
  severity = critical;
  service = str "lambda";
  region = region;
  resource = fn.name;
  title = str "Lambda function URL requires no auth";
  detail = str "A function URL with AuthType NONE invokes the function for anyone on the internet.";
  fix =
      str
        "Switch the URL to AuthType AWS_IAM, or delete it and front the function with API Gateway.";
})

-- `7 * 24 * time.Hour`
abbrev pub day : ℕ
day = 24 * 3600 * 1000000000

abbrev pub alarm_no_data_age : ℕ
alarm_no_data_age = 7 * day

unfoldable pub alarm_finding : SecuritySnapshot → SecAlarm → Finding
alarm_finding snap a = record {
  id = str "SEC-CW-001";
  severity = info;
  service = str "cloudwatch";
  region = snap.region;
  resource = a.name;
  title = str "Alarm stuck in INSUFFICIENT_DATA (broken monitoring)";
  detail = cat (
      str "The alarm has had no data for "
      ∷ itoa ((snap.now - a.state_updated) / day)
      ∷ str " days — its metric, dimension, or source probably no longer exists."
      ∷ []);
  fix = str "Fix the alarm's metric/dimensions, or delete the alarm if the resource is gone.";
}

-- A time in the future has a negative age. The days are those of the exact quotient.
unfoldable pub check_alarm : SecuritySnapshot → SecAlarm → List Finding
unfolding when alarm_finding
check_alarm snap a =
    when (not (a.state_updated == 0 || ltb snap.now (a.state_updated + alarm_no_data_age)))
      (alarm_finding snap a)

module _ (json : Json) where
  unfoldable pub check_queue_policy : Text → SecQueue → List Finding
  unfolding when policy_allows_everyone
  check_queue_policy region q = when (policy_allows_everyone json q.policy) (record {
    id = str "SEC-SQS-001";
    severity = critical;
    service = str "sqs";
    region = region;
    resource = q.name;
    title = str "SQS queue policy allows everyone";
    detail = str "The queue policy has an Allow statement with Principal \"*\" and no Condition.";
    fix =
        str
          "Scope the principal to specific accounts/roles, or add a restricting condition (e.g. aws:SourceArn).";
  })

  unfoldable pub check_topic_policy : Text → SecTopic → List Finding
  unfolding when policy_allows_everyone
  check_topic_policy region t = when (policy_allows_everyone json t.policy) (record {
    id = str "SEC-SNS-001";
    severity = critical;
    service = str "sns";
    region = region;
    resource = if eq_text t.name [] then t.arn else t.name;
    title = str "SNS topic policy allows everyone";
    detail = str "The topic policy has an Allow statement with Principal \"*\" and no Condition.";
    fix =
        str
          "Scope the principal to specific accounts/roles, or add a restricting condition (e.g. aws:SourceArn).";
  })

  unfoldable pub analyze_security : SecuritySnapshot → List Finding
  unfolding flat_map check_sec_volumes check_public_snapshots check_instances_imds check_sec_groups
  analyze_security snap =
      flat_map check_bucket snap.buckets
      ++ (check_sec_volumes snap
          ++ (check_public_snapshots snap
              ++ (check_instances_imds snap
                  ++ (check_sec_groups snap
                      ++ (flat_map (check_db_instance snap.region) snap.db_instances
                          ++ (flat_map (check_lambda_url snap.region) snap.functions
                              ++ (flat_map (check_queue_policy snap.region) snap.queues
                                  ++ (flat_map (check_topic_policy snap.region) snap.topics
                                      ++ flat_map (check_alarm snap) snap.alarms))))))))
