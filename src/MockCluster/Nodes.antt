-- ===== src/MockCluster/Nodes.antt =====
-- soundgate/scripts/mock_cluster.py, the nodes: heartbeats, the leader, the effect and the admin
-- port, and the catch-up in the background. Times are in milliseconds. The effect port reads a line
-- as a request, as JSON with another or no `op`, or as something that raises.
use soundgate_paper.Prelude.{
  ℕ, zero, suc, ◌+◌, ◌-◌, ◌≤◌, String, ◌≡◌, refl, ◌⊎◌, Bool, true, false, Option, none, some, List,
  [], ◌∷◌, ◌++◌, arith, length, ltb, min, ◌==◌, nat_eq, if◌then◌else◌,
}
use soundgate_paper.Wire.{Request, Reply, ping}
use soundgate_paper.MockCluster.Store.{Store, apply_op}

-- The shared directory and the nodes' own: the state, the time of each node's last heartbeat, and
-- the index that it has applied.
pub record Cluster : Type 0 where
  pub store : Store
  pub heartbeat : ℕ → Option ℕ
  pub applied : ℕ → ℕ

abbrev pub hb_stale : ℕ
hb_stale = 800

abbrev pub fresh : ℕ → Option ℕ → Bool
fresh now none = false
fresh now (some t) = ltb (now - t) hb_stale

-- `for i in range(3)`
unfoldable pub alive_ids : Cluster → ℕ → List ℕ
alive_ids c now =
    (if fresh now (c.heartbeat 0) then 0 ∷ [] else [])
    ++ ((if fresh now (c.heartbeat 1) then 1 ∷ [] else [])
        ++ (if fresh now (c.heartbeat 2) then 2 ∷ [] else []))

abbrev pub least : ℕ → List ℕ → ℕ
least m [] = m
least m (n ∷ ns) = least (min m n) ns

unfoldable pub leader : Cluster → ℕ → Option ℕ
unfolding alive_ids
leader c now = elect (alive_ids c now)
  where
    elect : List ℕ → Option ℕ
    elect [] = none
    elect (m ∷ []) = none
    elect (m ∷ n ∷ ns) = some (least m (n ∷ ns))

pub data Line : Type 0 where
  blank : Line
  malformed : String → Line
  bad_op : Line
  request : Request → Line

-- What the effect port does with a request that is no ping.
unfoldable pub served : ℕ → Cluster → Option ℕ → (Store → Store × Reply) → Cluster × Reply
served node c none op = (c, Reply.error "no quorum / no leader")
served node c (some lid) op =
    if lid == node
    then (record c { store = (op c.store).0 }, (op c.store).1)
    else (c, Reply.error "forward to leader")

-- The handling of a line at a node: the cluster after it, and the answer.
unfoldable pub handle_line : ℕ → ℕ → Cluster → Line → Cluster × Option Reply
unfolding served
handle_line node now c blank = (c, none)
handle_line node now c (malformed e) = (c, some (Reply.error "bad request"))
handle_line node now c bad_op =
    let (c', r) = served node c (leader c now) (λ st. (st, Reply.error "bad op")) in (c', some r)
handle_line node now c (request ping) = (c, some Reply.pong)
handle_line node now c (request q) =
    let (c', r) = served node c (leader c now) (λ st. apply_op st q) in (c', some r)

-- `POST /admin/init`: the cluster after it, and whether it was the first.
unfoldable pub init : ℕ → Cluster → Cluster × Bool
init node c =
    if c.store.initialized
    then (c, false)
    else (record c { store = record c.store { initialized = true; members = node ∷ [] } }, true)

-- One round of `background` at a node.
unfoldable pub tick : ℕ → ℕ → Cluster → Cluster
tick node now c = record c {
  heartbeat = λ i. if i == node then some now else c.heartbeat i;
  applied = λ i.
      if i == node
      then (if ltb (c.applied node) c.store.log_index then c.applied node + 1 else c.applied node)
      else c.applied i;
}

unfoldable pub ticks : ℕ → ℕ → ℕ → Cluster → Cluster
unfolding tick
ticks zero node now c = c
ticks (suc n) node now c = ticks n node (now + 50) (tick node now c)

ticks-log :
    (n node now : ℕ) (c : Cluster) → (ticks n node now c).store.log_index ≡ c.store.log_index
unfolding ticks
ticks-log zero node now c = refl
ticks-log (suc n) node now c = ticks-log n node (now + 50) (tick node now c)

ticks-applied :
    (n node now : ℕ) (c : Cluster)
    → c.applied node ≤ c.store.log_index
    → (ticks n node now c).applied node ≡ min c.store.log_index (c.applied node + n)
unfolding ticks tick
ticks-applied zero node now c h = ground arith
ticks-applied (suc n) node now c h =
    ground (arith, ticks-applied n node (now + 50) (tick node now c))

-- While the log does not grow, a node that is not ahead of it applies one entry in each round, and
-- has caught up after as many rounds as it was behind; it never passes the log's end.
pub ticks-catches_up :
    (n node now : ℕ) (c : Cluster)
    → c.applied node ≤ c.store.log_index
    → ((ticks n node now c).applied node ≤ (ticks n node now c).store.log_index)
      × (c.store.log_index - c.applied node ≤ n
          → (ticks n node now c).applied node ≡ (ticks n node now c).store.log_index)
ticks-catches_up n node now c h = (
  omega (arith, ticks-applied n node now c h, ticks-log n node now c),
  λ enough. omega (arith, ticks-applied n node now c h, ticks-log n node now c, enough),
)

elected-alive :
    (c : Cluster) (now lid : ℕ)
    → leader c now ≡ some lid
    → (2 ≤ length (alive_ids c now)) × (fresh now (c.heartbeat lid) ≡ true)
unfolding leader
elected-alive c now lid h = ground (arith, h)

-- A line changes the state only at the elected leader, at a time when at least two nodes have a
-- heartbeat younger than 800 ms, this one among them.
pub handle_line-leader :
    (node now : ℕ) (c : Cluster) (line : Line)
    → (((handle_line node now c line).0.store ≡ c.store) ⊎ (leader c now ≡ some node))
      × (leader c now ≡ some node
          → (2 ≤ length (alive_ids c now)) × (fresh now (c.heartbeat node) ≡ true))
unfolding handle_line
handle_line-leader node now c line = (ground arith, λ h. elected-alive c now node h)
