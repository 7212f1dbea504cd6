-- ===== src/Fuzz/Counting.antt =====
-- The counts of a batch of malformed inputs and the failures that it adds.
use soundgate_paper.Prelude.{
  ℕ, ◌+◌, String, ◌≡◌, Bool, false, none, some, List, [], ◌∷◌, arith, length, length-append,
  count_if, if◌then◌else◌,
}
use soundgate_paper.Fuzz.Socket.{Raw, reply, closed_raw, timeout, sent}
use soundgate_paper.Fuzz.Campaign.{
  Counts, Failure, is_fail_open, count_kind, batch, judge, verdict_in,
}

abbrev pub inputs : Counts → ℕ
inputs c = c.reply + c.closed + c.timeout + c.sent

-- An input that the server answered with a release or a hold.
abbrev pub opened : Raw → Bool
opened (reply (some v)) = is_fail_open v
opened (reply none) = false
opened closed_raw = false
opened timeout = false
opened sent = false

abbrev Counted : Raw → Counts × List Failure → Counts × List Failure → Type 0
Counted raw (c, fs) (c', fs') =
    (inputs c' ≡ inputs c + 1)
    × (c'.fail_open ≡ c.fail_open + (if opened raw then 1 else 0))
    × (length fs' ≡ length fs + (if opened raw then 1 else 0))

one :
    (cls : String) (raw : Raw) (c : Counts) (fs : List Failure)
    → Counted raw (c, fs) (judge cls (verdict_in raw) (count_kind raw c, fs))
unfolding count_kind
one cls (reply none) c fs = (omega arith, omega arith, omega arith)
one cls closed_raw c fs = (omega arith, omega arith, omega arith)
one cls timeout c fs = (omega arith, omega arith, omega arith)
one cls sent c fs = (omega arith, omega arith, omega arith)
one cls (reply (some v)) c fs =
    let added = length-append fs (
      record { oracle = cls; what = "FAIL-OPEN verdict on malformed input"; seen = v ∷ [] } ∷ []) in
    (ground arith, ground arith, ground (arith, added))

-- A batch counts every input once, and adds one failure for each input that was answered with a
-- release or a hold, and for no other.
pub batch_lem :
    (cls : String) (raws : List Raw) (c : Counts) (fs : List Failure)
    → let (c', fs') = batch cls raws (c, fs) in
      (inputs c' ≡ inputs c + length raws)
      × (c'.fail_open ≡ c.fail_open + count_if opened raws)
      × (length fs' ≡ length fs + count_if opened raws)
unfolding batch count_if
batch_lem cls [] c fs = (omega arith, omega arith, omega arith)
batch_lem cls (raw ∷ raws) c fs =
    let (c1, fs1) = judge cls (verdict_in raw) (count_kind raw c, fs) in
    let (i, o, f) = one cls raw c fs in
    let (i', o', f') = batch_lem cls raws c1 fs1 in
    (omega (arith, i, i'), omega (arith, o, o'), omega (arith, f, f'))
