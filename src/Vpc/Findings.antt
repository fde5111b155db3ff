-- ===== src/Vpc/Findings.antt =====
-- The linter of internal/vpctui/findings.go: `analyzeVPC` over the checks of the children.
pub mod Types
pub mod Groups
pub mod Routes
pub mod Nacls
pub mod Quotas
pub mod Exposed
pub mod Probe
pub mod Replies
use aws_explorer.Prelude.{ℕ, suc, Bool, List, [], ◌∷◌, ◌++◌, ◌==◌, not, if◌then◌else◌, ltb, sort}
use aws_explorer.Go.Text.{Text, less_text}
use aws_explorer.Vpc.Types.{Snapshot}
use aws_explorer.Vpc.Findings.Types.{Severity, info, warning, critical, rank_of, Finding}
use aws_explorer.Vpc.Findings.Groups.{check_security_groups, check_endpoints, check_orphans}
use aws_explorer.Vpc.Findings.Routes.{
  check_route_tables, check_subnets, check_nat_gateways, check_internet_gateways,
}
use aws_explorer.Vpc.Findings.Nacls.{check_nacls, check_peerings}
use aws_explorer.Vpc.Findings.Quotas.{check_quotas}

-- the order of the report: severe first, then by resource
unfoldable pub less_finding : Finding → Finding → Bool
unfolding rank_of less_text
less_finding a b =
    if not (rank_of a.severity == rank_of b.severity)
    then ltb (rank_of b.severity) (rank_of a.severity)
    else less_text a.resource b.resource

-- what the checks append, in their order
unfoldable pub run_checks : Snapshot → List Finding
run_checks snap =
    check_security_groups snap
    ++ (check_route_tables snap
        ++ (check_subnets snap
            ++ (check_nat_gateways snap
                ++ (check_internet_gateways snap
                    ++ (check_nacls snap
                        ++ (check_peerings snap
                            ++ (check_endpoints snap
                                ++ (check_orphans snap ++ check_quotas snap))))))))

unfoldable pub analyze_vpc : Snapshot → List Finding
unfolding run_checks sort less_finding
analyze_vpc snap = sort less_finding (run_checks snap)

count_severity : Severity → ℕ × ℕ × ℕ → ℕ × ℕ × ℕ
count_severity critical (c, w, i) = (suc c, w, i)
count_severity warning (c, w, i) = (c, suc w, i)
count_severity info (c, w, i) = (c, w, suc i)

count_from : ℕ × ℕ × ℕ → List Finding → ℕ × ℕ × ℕ
unfolding count_severity
count_from n [] = n
count_from n (f ∷ fs) = count_from (count_severity f.severity n) fs

unfoldable pub count_by_severity : List Finding → ℕ × ℕ × ℕ
unfolding count_from
count_by_severity fs = count_from (0, 0, 0) fs
