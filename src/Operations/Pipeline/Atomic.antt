-- ===== src/Operations/Pipeline/Atomic.antt =====
-- All or nothing: what a pipeline leaves of the database, and what it reports.
use mongocore.Prelude.{Text, ◌≡◌, true, List, ok, err}
use mongocore.Operations.Refs.Resolve.{Crates}
use mongocore.Operations.Pipeline.{
  Limit, in_session, find, insert_many, update, update_many, delete_many, aggregate, is_transient,
  Driver, Reason, commit_failed, Answer, Ran, done, failed,
}

-- What the driver promises of transactions: no other client sees a change before a commit that
-- succeeds, whatever is called in the session of the transaction, and a commit that fails with a
-- transient error has not taken place.
pub record Transactional (driver : Driver) : Type 1 where
  pub Data : Type 0
  pub visible : driver.World → Data
  pub session : (w w' : driver.World) → driver.start_session w ≡ ok w' → visible w' ≡ visible w
  pub begun : (w w' : driver.World) → driver.start_transaction w ≡ ok w' → visible w' ≡ visible w
  pub found :
      (d c : Text) (filter : driver.Document) (limit : Limit) (w : driver.World)
      → visible (driver.find in_session d c filter limit w).1 ≡ visible w
  pub one_inserted :
      (d c : Text) (doc : driver.Document) (w : driver.World)
      → visible (driver.insert_one in_session d c doc w).1 ≡ visible w
  pub many_inserted :
      (d c : Text) (docs : List driver.Document) (w : driver.World)
      → visible (driver.insert_many in_session d c docs w).1 ≡ visible w
  pub one_updated :
      (d c : Text) (filter update : driver.Document) (w : driver.World)
      → visible (driver.update_one in_session d c filter update w).1 ≡ visible w
  pub many_updated :
      (d c : Text) (filter update : driver.Document) (w : driver.World)
      → visible (driver.update_many in_session d c filter update w).1 ≡ visible w
  pub one_deleted :
      (d c : Text) (filter : driver.Document) (w : driver.World)
      → visible (driver.delete_one in_session d c filter w).1 ≡ visible w
  pub many_deleted :
      (d c : Text) (filter : driver.Document) (w : driver.World)
      → visible (driver.delete_many in_session d c filter w).1 ≡ visible w
  pub found_and_updated :
      (d c : Text) (filter update : driver.Document) (w : driver.World)
      → visible (driver.find_one_and_update in_session d c filter update w).1 ≡ visible w
  pub aggregated :
      (d c : Text) (pipeline : List driver.Document) (w : driver.World)
      → visible (driver.aggregate in_session d c pipeline w).1 ≡ visible w
  pub aborted : (w : driver.World) → visible (driver.abort_transaction w) ≡ visible w
  pub not_committed :
      (w : driver.World) (message : Text)
      → (driver.commit_transaction w).0 ≡ err message
      → is_transient message ≡ true
      → visible (driver.commit_transaction w).1 ≡ visible w

-- The reasons after which nothing was committed.
abbrev pub Uncommitted : Reason → Type 0
Uncommitted (commit_failed message) = ⊥
Uncommitted reason = Unit {0}

module _ (crates : Crates) (driver : Driver) (tx : Transactional driver) where
  open driver use {
    World, now_ms, start_session, start_transaction, abort_transaction, commit_transaction,
  }
  open tx use {Data, visible, session, begun, aborted, not_committed}

  -- The steps leave the visible data as it was, whether they end or fail.
  abbrev Leaves : Data → Ran crates driver → Type 0
  Leaves d (done rs w) = visible w ≡ d
  Leaves d (failed f w) = (visible w ≡ d) × Uncommitted f.reason

  -- A failure but that of a commit leaves the data as it was.
  abbrev Atomic : Data → Answer crates driver × World → Type 0
  Atomic d (ok r, w) = Unit {0}
  Atomic d (err f, w) = Uncommitted f.reason → visible w ≡ d
