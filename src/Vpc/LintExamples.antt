-- ===== src/Vpc/LintExamples.antt =====
-- The reports over a snapshot at concrete inputs.
use mathlib.Core.List.Memᴰ
use aws_explorer.Prelude.{◌≡◌, refl, ◌↔◌, true, false, [], ◌∷◌, Memᴰ, find}
use aws_explorer.Go.Text.{Text, str, eq_text, has_prefix}
use aws_explorer.Go.Number.{pos}
use aws_explorer.Go.Map.{get}
use aws_explorer.Vpc.Types.{SgRule, SgInfo, RouteTableInfo, NaclRule, NaclInfo, EniInfo, Snapshot}
use aws_explorer.Vpc.Lookup.{find_eni}
use aws_explorer.Vpc.Findings.Types.{Finding, critical}
use aws_explorer.Vpc.Findings.Groups.{check_security_groups, check_orphans}
use aws_explorer.Vpc.Findings.Nacls.{blocked_replies_finding}
use aws_explorer.Vpc.Findings.Exposed.{ExposedRule, check_security_groups_iff}
use aws_explorer.Vpc.Findings.Replies.{no_outbound_replies}
use aws_explorer.Vpc.Effective.{MergedRule, rule_key, compute_effective_rules}
use aws_explorer.Vpc.Effective.Laws.{HasKey, compute_effective_rules_iff}
use aws_explorer.Vpc.CrossReference.Groups.{XrefGroup}
use aws_explorer.Vpc.CrossReference.{cross_reference}
use aws_explorer.Vpc.CrossReference.Unused.{IsCandidate, NoSelfReference, unused_iff}
use aws_explorer.Vpc.Exposure.{exposure_report, reachable_label}
use aws_explorer.Vpc.Exposure.Laws.{IsReachable}
use aws_explorer.Vpc.Exposure.Report.{exposure_report_iff}
use aws_explorer.Vpc.SnapshotDiff.{diff_snapshots}
use aws_explorer.Vpc.SnapshotDiff.Facts.{DiffSection, diff_sections}
use aws_explorer.Vpc.SnapshotDiff.Laws.{SameFacts, diff_snapshots_nil}

abbrev ssh_in : SgRule
ssh_in = record {
  direction = str "Inbound";
  protocol = str "tcp";
  port_range = str "22";
  source = str "0.0.0.0/0";
  description = [];
}

abbrev ssh_sg : SgInfo
ssh_sg = record {
  id = str "sg-1";
  name = str "ssh";
  description = [];
  vpc_id = str "vpc-1";
  inbound_count = pos 1;
  outbound_count = pos 0;
  rules = ssh_in ∷ [];
  tags = [];
}

abbrev public_table : RouteTableInfo
public_table = record {
  id = str "rtb-1";
  name = [];
  vpc_id = str "vpc-1";
  is_main = true;
  routes =
      record { destination = str "0.0.0.0/0"; target = str "igw-1"; state = str "active" } ∷ [];
  associations = [];
  tags = [];
}

abbrev bastion : EniInfo
bastion = record {
  id = str "eni-1";
  description = [];
  type = str "interface";
  status = str "in-use";
  private_ip = str "10.0.1.5";
  secondary_ips = [];
  public_ip = str "3.3.3.3";
  subnet_id = str "subnet-1";
  vpc_id = str "vpc-1";
  az = str "eu-west-1a";
  attached_to = str "i-1";
  security_groups = str "sg-1" ∷ [];
  source_dest_check = true;
  tags = [];
}

abbrev https_allow : NaclRule
https_allow = record {
  rule_number = 100;
  protocol = str "tcp";
  port_range = str "443";
  cidr = str "0.0.0.0/0";
  action = str "allow";
  direction = str "Inbound";
}

abbrev one_way_acl : NaclInfo
one_way_acl = record {
  id = str "acl-1";
  name = [];
  vpc_id = str "vpc-1";
  is_default = true;
  associations = [];
  rules = https_allow ∷ [];
  tags = [];
}

abbrev public_vpc : Snapshot
public_vpc = record {
  vpc_id = str "vpc-1";
  region = str "eu-west-1";
  owner_id = str "1";
  subnets = [];
  security_groups = ssh_sg ∷ [];
  route_tables = public_table ∷ [];
  internet_gateways = [];
  nat_gateways = [];
  network_acls = one_way_acl ∷ [];
  peerings = [];
  endpoints = [];
  network_interfaces = bastion ∷ [];
}

abbrev closed_vpc : Snapshot
closed_vpc = record public_vpc { security_groups = []; network_interfaces = [] }

check_security_groups_iff_example :
    ((f : Finding) × Memᴰ f (check_security_groups public_vpc)
      × (f.severity ≡ critical)
      × (f.resource ≡ str "sg-1"))
    ↔ ExposedRule public_vpc (str "sg-1")
check_security_groups_iff_example = check_security_groups_iff public_vpc (str "sg-1")

no_outbound_warning : Finding
no_outbound_warning =
    blocked_replies_finding one_way_acl no_outbound_replies (
      str
        "Add an outbound allow rule for TCP/UDP ports 1024-65535 to the appropriate destinations.")

compute_effective_rules_iff_example :
    (((m : MergedRule) × Memᴰ m (compute_effective_rules public_vpc (str "eni-1")).inbound
        × (rule_key m.rule ≡ rule_key ssh_in)
        × Memᴰ (str "sg-1") m.sgs)
      ↔ HasKey public_vpc (str "sg-1" ∷ []) true (rule_key ssh_in) (str "sg-1"))
    × (((m : MergedRule) × Memᴰ m (compute_effective_rules public_vpc (str "eni-1")).outbound
          × (rule_key m.rule ≡ rule_key ssh_in)
          × Memᴰ (str "sg-1") m.sgs)
        ↔ HasKey public_vpc (str "sg-1" ∷ []) false (rule_key ssh_in) (str "sg-1"))
unfolding find_eni find eq_text str
compute_effective_rules_iff_example =
    compute_effective_rules_iff public_vpc (str "eni-1") bastion refl (rule_key ssh_in) (str "sg-1")

exposure_report_iff_example :
    ((g : XrefGroup) × Memᴰ g (exposure_report public_vpc) × (g.label ≡ reachable_label))
    ↔ ((e : EniInfo) × Memᴰ e (bastion ∷ []) × IsReachable public_vpc e)
exposure_report_iff_example = exposure_report_iff public_vpc

diff_snapshots_nil_example : (diff_snapshots public_vpc closed_vpc ≡ []) ↔ (
    (sec : DiffSection)
    → Memᴰ sec diff_sections
    → (id : Text) → SameFacts (get id (sec.facts public_vpc)) (get id (sec.facts closed_vpc)))
diff_snapshots_nil_example = diff_snapshots_nil public_vpc closed_vpc

unused_iff_example :
    ((f : Finding) × Memᴰ f (check_orphans public_vpc)
      × (f.title ≡ str "Security group appears unused")
      × (f.resource ≡ str "sg-1"))
    ↔ (IsCandidate public_vpc (str "sg-1")
        × (cross_reference public_vpc (str "sg-1") ≡ ([], true))
        × NoSelfReference public_vpc (str "sg-1"))
unfolding has_prefix str
unused_iff_example = unused_iff public_vpc (str "sg-1") refl
