-- ===== src/Arn/Examples.antt =====
-- ARNs at concrete inputs.
use aws_explorer.Prelude.{◌≡◌, refl, some, arith}
use aws_explorer.Go.Text.{str, has_byte, eq_text, cat}
use aws_explorer.Arn.{ec2_arn, parse_arn, sqs_arn_from_url, after_first, sqs_region_from_url}
use aws_explorer.Arn.Laws.{parse_arn-ec2_arn}

queue :
    sqs_arn_from_url (str "https://sqs.eu-west-1.amazonaws.com/123/jobs")
    ≡ str "arn:aws:sqs:eu-west-1:123:jobs"
unfolding sqs_arn_from_url sqs_region_from_url after_first str eq_text cat
queue = refl

parse_arn-ec2_arn_example :
    parse_arn (ec2_arn (str "eu-west-1") (str "123") (str "instance") (str "i-1"))
    ≡ some (record {
      partition = str "aws";
      service = str "ec2";
      region = str "eu-west-1";
      account_id = str "123";
      resource_type = str "instance";
      resource_id = str "i-1";
    })
unfolding has_byte str
parse_arn-ec2_arn_example =
    parse_arn-ec2_arn (str "eu-west-1") (str "123") (str "instance") (str "i-1") (λ e. ground arith)
      (λ e. ground arith) (λ e. ground arith) refl refl refl
