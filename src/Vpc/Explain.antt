-- ===== src/Vpc/Explain.antt =====
-- internal/vpctui/sgexplain.go: the plain-English reading of a rule and its risk note.
use aws_explorer.Prelude.{
  ℕ, ◌-◌, Bool, true, false, ◌&&◌, ◌||◌, not, Option, none, some, List, [], ◌∷◌, if◌then◌else◌, leb,
  any, length, drop, take,
}
use aws_explorer.Go.Text.{
  Text, str, eq_text, trim_space, equal_fold, has_byte, has_prefix, cut, cat, member,
}
use aws_explorer.Go.Number.{ℤ, leb_int}
use aws_explorer.Vpc.Types.{SgRule}
use aws_explorer.Vpc.Match.{parse_port_range, atoi_port, atoi_loop}

unfoldable pub port_services : List (Text × Text)
port_services =
    (str "20", str "FTP-data")
    ∷ (str "21", str "FTP")
    ∷ (str "22", str "SSH")
    ∷ (str "23", str "Telnet")
    ∷ (str "25", str "SMTP")
    ∷ (str "53", str "DNS")
    ∷ (str "67", str "DHCP")
    ∷ (str "68", str "DHCP")
    ∷ (str "69", str "TFTP")
    ∷ (str "80", str "HTTP")
    ∷ (str "110", str "POP3")
    ∷ (str "123", str "NTP")
    ∷ (str "135", str "MS-RPC")
    ∷ (str "137", str "NetBIOS")
    ∷ (str "138", str "NetBIOS")
    ∷ (str "139", str "NetBIOS")
    ∷ (str "143", str "IMAP")
    ∷ (str "161", str "SNMP")
    ∷ (str "389", str "LDAP")
    ∷ (str "443", str "HTTPS")
    ∷ (str "445", str "SMB")
    ∷ (str "465", str "SMTPS")
    ∷ (str "514", str "Syslog")
    ∷ (str "587", str "SMTP")
    ∷ (str "636", str "LDAPS")
    ∷ (str "993", str "IMAPS")
    ∷ (str "995", str "POP3S")
    ∷ (str "1433", str "MS SQL Server")
    ∷ (str "1521", str "Oracle DB")
    ∷ (str "2049", str "NFS")
    ∷ (str "2375", str "Docker")
    ∷ (str "2376", str "Docker (TLS)")
    ∷ (str "3000", str "Grafana/dev")
    ∷ (str "3306", str "MySQL/Aurora")
    ∷ (str "3389", str "RDP")
    ∷ (str "4789", str "VXLAN")
    ∷ (str "5432", str "PostgreSQL")
    ∷ (str "5439", str "Redshift")
    ∷ (str "5601", str "Kibana")
    ∷ (str "5672", str "AMQP/RabbitMQ")
    ∷ (str "5900", str "VNC")
    ∷ (str "5984", str "CouchDB")
    ∷ (str "6379", str "Redis")
    ∷ (str "6443", str "Kubernetes API")
    ∷ (str "8080", str "HTTP (alt)")
    ∷ (str "8443", str "HTTPS (alt)")
    ∷ (str "8500", str "Consul")
    ∷ (str "9000", str "SonarQube/MinIO")
    ∷ (str "9092", str "Kafka")
    ∷ (str "9200", str "Elasticsearch")
    ∷ (str "9300", str "Elasticsearch")
    ∷ (str "11211", str "Memcached")
    ∷ (str "15672", str "RabbitMQ admin")
    ∷ (str "27017", str "MongoDB")
    ∷ []

-- the keys of the map `adminPorts`
unfoldable pub admin_ports : List Text
admin_ports = str "22" ∷ str "23" ∷ str "3389" ∷ str "5900" ∷ []

-- the keys of the map `dataPorts`
unfoldable pub data_ports : List Text
data_ports =
    str "1433"
    ∷ str "1521"
    ∷ str "3306"
    ∷ str "5432"
    ∷ str "5439"
    ∷ str "6379"
    ∷ str "9200"
    ∷ str "9300"
    ∷ str "11211"
    ∷ str "27017"
    ∷ str "5984"
    ∷ str "9092"
    ∷ []

-- a read of a map with text keys
unfoldable pub lookup : Text → List (Text × Text) → Option Text
lookup k [] = none
lookup k ((j, v) ∷ m) = if eq_text j k then some v else lookup k m

known_service : Option Text → Text → Text → Text
known_service none proto ports = cat (proto ∷ str " port " ∷ ports ∷ [])
known_service (some svc) proto ports = cat (svc ∷ str " (" ∷ proto ∷ str " " ∷ ports ∷ str ")" ∷ [])

unfoldable pub describe_proto_ports : Text → Text → Text
unfolding known_service lookup port_services
describe_proto_ports protocol port_range =
    let proto = trim_space protocol in
    let ports = trim_space port_range in
    if eq_text proto [] || equal_fold proto (str "All")
    then str "all traffic"
    else if eq_text ports [] || equal_fold ports (str "All")
    then cat (str "all " ∷ proto ∷ str " ports" ∷ [])
    else if not (has_byte b'-' ports)
    then known_service (lookup ports port_services) proto ports
    else cat (proto ∷ str " ports " ∷ ports ∷ [])

-- `strings.HasSuffix s p`, and `strings.TrimSuffix s p` where it holds
unfoldable pub has_suffix : Text → Text → Bool
has_suffix s p = leb (length p) (length s) && eq_text (drop (length s - length p) s) p

abbrev trim_suffix : Text → Text → Text
trim_suffix s p = take (length s - length p) s

-- The loop of `secondOctetIn16to31` is that of `atoiPort`, with a range test at its end.
in_16_to_31 : Option ℕ → Bool
in_16_to_31 none = false
in_16_to_31 (some n) = leb 16 n && leb n 31

second_octet_in_16_to_31 : Text → Bool
unfolding atoi_loop in_16_to_31
second_octet_in_16_to_31 s = in_16_to_31 (atoi_loop (some 0) s)

second_octet_private : Text × Option Text → Bool
unfolding second_octet_in_16_to_31
second_octet_private (before, none) = false
second_octet_private (before, some _) = second_octet_in_16_to_31 before

unfoldable pub is_private_cidr : Text → Bool
unfolding second_octet_private
is_private_cidr cidr =
    let ip = (cut b'/' cidr).0 in
    if has_prefix ip (str "10.") || has_prefix ip (str "192.168.")
    then true
    else if has_prefix ip (str "172.")
    then second_octet_private (cut b'.' (drop 4 ip))
    else false

unfoldable pub describe_source : Text → Text
unfolding has_suffix is_private_cidr
describe_source source =
    let src = trim_space source in
    if eq_text src [] || eq_text src (str "-")
    then str "any source"
    else if eq_text src (str "0.0.0.0/0")
    then str "anywhere on the internet (0.0.0.0/0)"
    else if eq_text src (str "::/0")
    then str "anywhere on the internet over IPv6 (::/0)"
    else if has_prefix src (str "sg-")
    then cat (str "resources in security group " ∷ src ∷ [])
    else if has_prefix src (str "pl-")
    then cat (str "the prefix list " ∷ src ∷ [])
    else if has_suffix src (str "/32")
    then cat (str "the single host " ∷ trim_suffix src (str "/32") ∷ [])
    else if has_suffix src (str "/128")
    then cat (str "the single host " ∷ trim_suffix src (str "/128") ∷ [])
    else if is_private_cidr src
    then cat (str "the private network " ∷ src ∷ [])
    else src

unfoldable pub is_public_source : Text → Bool
is_public_source source =
    let src = trim_space source in eq_text src (str "0.0.0.0/0") || eq_text src (str "::/0")

-- whether one port of a table lies in a range
covered_port : ℤ × ℤ → Text → Bool
covered_port (from, to) port = elim (atoi_port port) [
  | none ↦ false
  | some p ↦ leb_int from p && leb_int p to
]

covers_sensitive : Option (ℤ × ℤ) → Bool
unfolding covered_port admin_ports data_ports any
covers_sensitive none = false
covers_sensitive (some range) =
    any (covered_port range) admin_ports || any (covered_port range) data_ports

unfoldable pub range_includes_sensitive_port : Text → Bool
unfolding covers_sensitive
range_includes_sensitive_port rng = covers_sensitive (parse_port_range rng)

-- The empty text means no risk.
unfoldable pub exposure_risk : Text → Text → Text → Text
unfolding range_includes_sensitive_port member admin_ports data_ports
exposure_risk protocol port_range source =
    let proto = trim_space protocol in
    let ports = trim_space port_range in
    if not (is_public_source source)
    then []
    else if eq_text proto [] || equal_fold proto (str "All") || equal_fold ports (str "All")
    then str "⚠ ALL ports open to the entire internet"
    else if not (has_byte b'-' ports)
    then if member ports admin_ports
      then str "⚠ remote admin access open to the entire internet"
      else if member ports data_ports
      then str "⚠ database/cache port exposed to the entire internet"
      else []
    else if range_includes_sensitive_port ports
    then str "⚠ port range exposes sensitive ports to the entire internet"
    else []

unfoldable pub explain_sg_rule : SgRule → Text
unfolding describe_proto_ports describe_source exposure_risk
explain_sg_rule r =
    let outbound = equal_fold r.direction (str "Outbound") in
    let verb = if outbound then str "Allow outbound" else str "Allow inbound" in
    let prep = if outbound then str "to" else str "from" in
    let sentence = cat (
      verb
      ∷ str " "
      ∷ describe_proto_ports r.protocol r.port_range
      ∷ str " "
      ∷ prep
      ∷ str " "
      ∷ describe_source r.source
      ∷ []) in
    let note = exposure_risk r.protocol r.port_range r.source in
    if eq_text note [] then sentence else cat (sentence ∷ str "  " ∷ note ∷ [])
