-- ===== src/Wire/Laws.antt =====
-- What makes a gate safe for its clients: an identity that was released, rejected or fenced is dead,
-- it stays dead, also over restarts, and a dead identity is never released.
use soundgate_paper.Prelude.{String, ◌≡◌, Bool, true, false}
use soundgate_paper.Wire.{Request, is_release, is_rejected, is_ack, is_about, is_fence, Server}

pub record IsSafe (S : Server) (Inv : S.State → Type 0) (dead : S.State → String × String → Bool)
    : Type 0 where
  pub call-Inv : (s : S.State) (q : Request) → Inv s → Inv (S.call s q).0
  pub restart-Inv : (s : S.State) → Inv s → Inv (S.restart s)
  pub release_names :
      (s : S.State) (q : Request)
      → Inv s
      → is_release (S.call s q).1 ≡ true
      → (i : String × String) × (is_about q i ≡ true)
  pub release_live :
      (s : S.State) (q : Request) (i : String × String)
      → Inv s
      → is_about q i ≡ true
      → is_release (S.call s q).1 ≡ true
      → dead s i ≡ false
  pub release_kills :
      (s : S.State) (q : Request) (i : String × String)
      → Inv s
      → is_about q i ≡ true
      → is_release (S.call s q).1 ≡ true
      → dead (S.call s q).0 i ≡ true
  pub reject_kills :
      (s : S.State) (q : Request) (i : String × String)
      → Inv s
      → is_about q i ≡ true
      → is_rejected (S.call s q).1 ≡ true
      → dead (S.call s q).0 i ≡ true
  pub fence_kills :
      (s : S.State) (q : Request) (i : String × String)
      → Inv s
      → is_fence q i.0 ≡ true
      → is_ack (S.call s q).1 ≡ true
      → dead (S.call s q).0 i ≡ true
  pub dead_stays :
      (s : S.State) (q : Request) (i : String × String)
      → Inv s
      → dead s i ≡ true
      → dead (S.call s q).0 i ≡ true
  pub dead_restarts :
      (s : S.State) (i : String × String) → Inv s → dead s i ≡ true → dead (S.restart s) i ≡ true
