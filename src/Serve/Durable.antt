-- ===== src/Serve/Durable.antt =====
-- The state file after the calls that the interceptor of internal/server/server.go has seen.
use nico_core_mock.Env.{Env}
use nico_core_mock.GoMap.{Runtime}
use nico_core_mock.Persist.{Snapshot, export_snapshot, persisted}
use nico_core_mock.Persist.Recovery.{IsConsistent}
use nico_core_mock.Prelude.{
  Bool-cases, List, String, [], empty_text, false, inl, inr, refl, some, subst, sym, true, ◌∷◌, ◌≡◌,
  ◌≢◌,
}
use nico_core_mock.Reply.{Ending, crashed, refused, returned}
use nico_core_mock.Rpc.Consistent.Fresh.{IsFresh}
use nico_core_mock.Rpc.Consistent.Steps.{IsSoundRpc, step-IsConsistent}
use nico_core_mock.Rpc.Method.{full_method}
use nico_core_mock.Rpc.ReadOnly.{completes_discovery, step-read_only}
use nico_core_mock.Rpc.Refused.Steps.{step-refused}
use nico_core_mock.Rpc.Request.{Request}
use nico_core_mock.Rpc.Step.{step}
use nico_core_mock.Serve.{after_call, intercept, persist_state, serve}
use nico_core_mock.Server.{Server}
use nico_core_mock.Statestore.Atomic.{load_file-save}
use nico_core_mock.Statestore.Disk.{FileSystem, load_file, save}
use nico_core_mock.Statestore.Methods.{is_mutating_method}
use nico_core_mock.Statestore.Wire.{Codecs}

module _ {D Raw Doc : Type 0} (fs : FileSystem D Doc) (cs : Codecs Raw Doc)
    (state_file service : String) where
  -- The file reads back as a snapshot of the server's persisted maps.
  pub record IsSaved (f : Server) (d : D) : Type 0 where
    pub go : Runtime
    pub reads_back : load_file fs cs state_file d ≡ some (export_snapshot go (persisted f))

  -- The disk and the marshallers work.
  abbrev pub IsWorking : Type 0
  IsWorking = (snap : Snapshot) (d : D) → (save fs cs state_file (some snap) d).1 ≡ true

  persist_state-IsSaved :
      (e : Env) (f : Server) (d : D)
      → empty_text state_file ≡ false
      → IsWorking
      → IsSaved f (persist_state fs cs state_file service e f d).0
  unfolding persist_state export_snapshot
  persist_state-IsSaved e f d named works = record {
    go = e.go;
    reads_back =
        load_file-save fs cs state_file (export_snapshot e.go (persisted f)) d named
          (works (export_snapshot e.go (persisted f)) d);
  }

  -- One call that is neither of the exception nor a crash keeps the file up to date.
  after_call-IsSaved :
      (e : Env) (r : Request) (how : Ending) (f : Server) (d : D)
      → empty_text state_file ≡ false
      → IsWorking
      → completes_discovery r ≡ false
      → (step e r f).1 ≡ how
      → how ≢ crashed
      → IsSaved f d
      → IsSaved (step e r f).0 (after_call fs cs state_file service e r how (step e r f).0 d)
  unfolding after_call
  after_call-IsSaved e r (refused c) f d named works quiet ended alive s =
      rw (step-refused e r f c ended) s
  after_call-IsSaved e r crashed f d named works quiet ended alive s = absurd (alive refl)
  after_call-IsSaved e r returned f d named works quiet ended alive s =
      elim (Bool-cases (is_mutating_method (full_method service r))) [
        | inl saves ↦ rw (named, saves) (persist_state-IsSaved e (step e r f).0 d named works)
        | inr skips ↦ rw (named, skips) (rw (step-read_only e service r f skips quiet) s)
      ]

  -- What is asked of each call.
  abbrev pub AreSound : List (Env × Request) → Type 0
  AreSound [] = Unit
  AreSound ((e, r) ∷ calls) =
      IsFresh e × IsSoundRpc r × (completes_discovery r ≡ false) × AreSound calls

  pub record IsDurable (s : Server × D) : Type 0 where
    pub consistent : IsConsistent (persisted s.0)
    pub saved : IsSaved s.0 s.1

  -- After a sequence of calls, some of which may be refused and the last of which may crash, the
  -- state file reads back as a snapshot of the nine persisted maps of the last server in memory,
  -- and these hold every message under its own id. The server begins so. The state file has a name
  -- and saves succeed. No call is FindMachinesByIds, and no allocation asks for an empty instance id
  -- or names an empty machine id. Uuids are not empty, and completing the discovery information of a
  -- machine keeps its id.
  pub serve-IsDurable :
      (calls : List (Env × Request)) (f : Server) (d : D)
      → empty_text state_file ≡ false
      → IsWorking
      → AreSound calls
      → IsDurable (f, d)
      → IsDurable (serve fs cs state_file service calls f d)
  unfolding serve intercept after_call
  serve-IsDurable [] f d named works sound s = s
  serve-IsDurable ((e, r) ∷ calls) f d named works (fresh, sane, quiet, rest) s =
      by_ending (step e r f).1 refl (serve-IsDurable calls _ _ named works rest)
    where
      file : D
      file = after_call fs cs state_file service e r (step e r f).1 (step e r f).0 d

      next : (step e r f).1 ≢ crashed → IsDurable ((step e r f).0, file)
      next alive = record {
        consistent = step-IsConsistent e r f fresh sane s.consistent;
        saved = after_call-IsSaved e r (step e r f).1 f d named works quiet refl alive s.saved;
      }

      by_ending :
          (how : Ending)
          → (step e r f).1 ≡ how
          → (IsDurable ((step e r f).0, file)
              → IsDurable (serve fs cs state_file service calls (step e r f).0 file))
          → IsDurable (serve fs cs state_file service ((e, r) ∷ calls) f d)
      by_ending returned ended ih = rw (ended, serve) (ih (next (λ p. cc (ended, p))))
      by_ending (refused c) ended ih = rw (ended, serve) (ih (next (λ p. cc (ended, p))))
      by_ending crashed ended ih =
          rw (ended, serve)
            (record {
              consistent = s.consistent;
              saved =
                  subst
                    (λ how.
                      IsSaved f (after_call fs cs state_file service e r how (step e r f).0 d))
                    (sym ended) s.saved;
            })

  -- A call of a mutating method that returns brings the state file up to date, whatever it held
  -- before, and keeps every persisted message under its own id. The state file has a name, saves
  -- succeed, ids are not "", and the messages were under their own ids.
  pub intercept-IsDurable :
      (e : Env) (r : Request) (f : Server) (d : D)
      → empty_text state_file ≡ false
      → IsWorking
      → IsFresh e
      → IsSoundRpc r
      → IsConsistent (persisted f)
      → is_mutating_method (full_method service r) ≡ true
      → (step e r f).1 ≡ returned
      → IsDurable (
        (intercept fs cs state_file service e r f d).0,
        (intercept fs cs state_file service e r f d).1,
      )
  unfolding intercept after_call
  intercept-IsDurable e r f d named works fresh sane c saves ended = record {
    consistent = step-IsConsistent e r f fresh sane c;
    saved =
        rw ended
          (rw (named, saves, after_call) (persist_state-IsSaved e (step e r f).0 d named works));
  }
