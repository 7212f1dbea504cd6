-- ===== src/Soak/Whole.antt =====
-- A soak on the gate server, from its first run to the probes after the last crash.
use soundgate_paper.Node.Auth.{Digest}
use soundgate_paper.Node.Auth.{check_mac}
use soundgate_paper.Prelude.{ℕ, String, ◌≡◌, true, some, List, length, string_eq}
use soundgate_paper.Wire.{Server}
use soundgate_paper.Gate.Phase.{fresh, phase}
use soundgate_paper.Node.Defs.{start}
use soundgate_paper.Node.Invariant.{start-IsDurable}
use soundgate_paper.Node.Safe.{server, server-IsSafe}
use soundgate_paper.Soak.Shared.{no_stats}
use soundgate_paper.Soak.Segments.{Segment, run_segments, run_segments-Sampled}
use soundgate_paper.Soak.Final.{finish_soak, finish_soak-Passes}

module _ (hmac : Digest) (secret : String) (threshold : ℕ) (randrange : ℕ → ℕ) where
  abbrev soaked : Server
  soaked = server (check_mac hmac (some secret)) threshold

  -- Whatever the segments, their runs, the faults and the requests of others, if nobody has used the
  -- fresh identity and the server answers after the last crash: then every sampled identity is refused,
  -- fresh work is released, no closed run keeps a record, and the violations reported are those counted
  -- in the segments. The soak holds the server's secret.
  pub soak-Recovers :
      (limit : ℕ) (segs : List Segment)
      → phase
          (run_segments soaked hmac secret randrange limit 0 segs start no_stats).0.gate
          ("post-soak-fresh", "k")
        ≡ fresh
      → let (n, st) = run_segments soaked hmac secret randrange limit 0 segs start no_stats in
        let r = finish_soak (check_mac hmac (some secret)) threshold true n st in
        (r.refused ≡ length st.reservoir)
        × (r.fresh_released ≡ true)
        × (r.closed_with_ident ≡ 0)
        × (r.nviol ≡ st.violation_count)
  soak-Recovers limit segs unseen =
      let mac_ok = check_mac hmac (some secret) in
      let (n, st) = run_segments soaked hmac secret randrange limit 0 segs start no_stats in
      let (d, dead) =
        run_segments-Sampled soaked hmac secret randrange (server-IsSafe mac_ok threshold) limit 0
          segs start no_stats start-IsDurable tt in
      let (closed, refused, released, nviol, status) =
        finish_soak-Passes mac_ok threshold n st d dead unseen in
      (refused, released, closed, nviol)
