-- ===== src/Vpc/Types.antt =====
-- The records of internal/vpctui/vpc.go and the snapshot of internal/vpctui/findings.go. A map of
-- tags is an association list. Rule numbers and address counts, which AWS keeps non-negative, are
-- natural numbers.
use aws_explorer.Prelude.{ℕ, Bool, List}
use aws_explorer.Go.Text.{Text}
use aws_explorer.Go.Number.{ℤ}

abbrev pub Tags : Type 0
Tags = List (Text × Text)

pub record SgRule : Type 0 where
  pub direction : Text
  pub protocol : Text
  pub port_range : Text
  pub source : Text
  pub description : Text

pub record SgInfo : Type 0 where
  pub id : Text
  pub name : Text
  pub description : Text
  pub vpc_id : Text
  pub inbound_count : ℤ
  pub outbound_count : ℤ
  pub rules : List SgRule
  pub tags : Tags

pub record Route : Type 0 where
  pub destination : Text
  pub target : Text
  pub state : Text

pub record RouteTableInfo : Type 0 where
  pub id : Text
  pub name : Text
  pub vpc_id : Text
  pub is_main : Bool
  pub routes : List Route
  pub associations : List Text
  pub tags : Tags

pub record IgwInfo : Type 0 where
  pub id : Text
  pub name : Text
  pub state : Text
  pub vpc_id : Text
  pub tags : Tags

pub record NatGwInfo : Type 0 where
  pub id : Text
  pub name : Text
  pub state : Text
  pub subnet_id : Text
  pub vpc_id : Text
  pub type : Text
  pub public_ip : Text
  pub private_ip : Text
  pub tags : Tags

pub record EndpointInfo : Type 0 where
  pub id : Text
  pub service_name : Text
  pub type : Text
  pub state : Text
  pub vpc_id : Text
  pub route_table_ids : List Text
  pub subnet_ids : List Text
  pub security_groups : List Text
  pub private_dns_enabled : Bool
  pub tags : Tags

pub record NaclRule : Type 0 where
  pub rule_number : ℕ
  pub protocol : Text
  pub port_range : Text
  pub cidr : Text
  pub action : Text
  pub direction : Text

pub record NaclInfo : Type 0 where
  pub id : Text
  pub name : Text
  pub vpc_id : Text
  pub is_default : Bool
  pub associations : List Text
  pub rules : List NaclRule
  pub tags : Tags

pub record PeeringInfo : Type 0 where
  pub id : Text
  pub status : Text
  pub requester_vpc_id : Text
  pub requester_region : Text
  pub requester_cidr : Text
  pub requester_cidrs : List Text
  pub accepter_vpc_id : Text
  pub accepter_region : Text
  pub accepter_cidr : Text
  pub accepter_cidrs : List Text
  pub tags : Tags

pub record SubnetInfo : Type 0 where
  pub id : Text
  pub name : Text
  pub vpc_id : Text
  pub cidr : Text
  pub az : Text
  pub available_ips : ℕ
  pub is_public : Bool
  pub state : Text
  pub default_for_az : Bool
  pub map_public_ip_on_launch : Bool
  pub ipv6_cidrs : List Text
  pub tags : Tags

pub record EniInfo : Type 0 where
  pub id : Text
  pub description : Text
  pub type : Text
  pub status : Text
  pub private_ip : Text
  pub secondary_ips : List Text
  pub public_ip : Text
  pub subnet_id : Text
  pub vpc_id : Text
  pub az : Text
  pub attached_to : Text
  pub security_groups : List Text
  pub source_dest_check : Bool
  pub tags : Tags

pub record Snapshot : Type 0 where
  pub vpc_id : Text
  pub region : Text
  pub owner_id : Text
  pub subnets : List SubnetInfo
  pub security_groups : List SgInfo
  pub route_tables : List RouteTableInfo
  pub internet_gateways : List IgwInfo
  pub nat_gateways : List NatGwInfo
  pub network_acls : List NaclInfo
  pub peerings : List PeeringInfo
  pub endpoints : List EndpointInfo
  pub network_interfaces : List EniInfo
