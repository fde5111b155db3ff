-- ===== src/Vpc/Findings/Replies.antt =====
-- `checkNACLs` against the evaluation of the tracer.
use mathlib.Core.List.Memᴰ
use aws_explorer.Prelude.{ℕ, ◌≤◌, ◌≡◌, Bool, true, false, ◌&&◌, not, some, Memᴰ, arith}
use aws_explorer.Go.Text.{Text, str}
use aws_explorer.Go.Number.{pos}
use aws_explorer.Go.Net.{Ip}
use aws_explorer.Vpc.Types.{NaclRule, NaclInfo}
use aws_explorer.Vpc.Nacl.{is_allow, has_direction, nacl_allows}
use aws_explorer.Vpc.Findings.Nacls.{ephemeral_probe_ports, is_ephemeral_return_range}

both : (b c : Bool) → (b && not c) ≡ true → (b ≡ true) × (c ≡ false)
both b c h = (ground arith, ground arith)

-- The ACL has an allow rule of the direction whose port range is not one for replies.
abbrev pub AllowsService : NaclInfo → Text → Type 0
AllowsService nacl dir =
    (r : NaclRule) × Memᴰ r nacl.rules
    × (is_allow r ≡ true)
    × (has_direction dir r ≡ true)
    × (is_ephemeral_return_range r.port_range ≡ false)

-- the text of the warning about replies to inbound connections
abbrev pub no_outbound_replies : Text
no_outbound_replies =
    str
      " allows inbound service traffic but has no outbound allow covering ephemeral ports 1024-65535. NACLs are stateless, so replies to inbound connections will be dropped."

-- the text of the warning about replies to outbound connections
abbrev pub no_inbound_replies : Text
no_inbound_replies =
    str
      " allows outbound service traffic but has no inbound allow covering ephemeral ports 1024-65535. NACLs are stateless, so replies to outbound connections will be dropped."

-- A probed port of the ephemeral ones to which the ACL denies the replies to a peer.
abbrev pub DeniesReplies : NaclInfo → Ip → Text → Type 0
DeniesReplies nacl ip dir =
    (p : ℕ) × Memᴰ p ephemeral_probe_ports
    × (1024 ≤ p)
    × (p ≤ 65535)
    × ((nacl_allows (some nacl) dir (str "tcp") (pos p) (some ip)).0 ≡ false)
