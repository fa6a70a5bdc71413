-- ===== src/Cache/Calls.antt =====
-- src/cache/resource_cache.rs: any sequence of calls and of the tasks that they spawn.
use hakimi_hub.Prelude.{ℕ, none, List, [], ◌∷◌}
use hakimi_hub.Prelude.Str.{Text}
use hakimi_hub.Config.Sections.{CacheConfig}
use hakimi_hub.Proxy.Response.{CachedResource}
use hakimi_hub.Cache.Files.{FilePath}
use hakimi_hub.Cache.Store.{Platform, ResourceCache, Task, new, put, remove, url_to_key}
use hakimi_hub.Cache.Cleanup.{clear, clear_expired, flush, run_task}
use hakimi_hub.Cache.WellFormed.{
  WellFormed, Good, WellFormed-empty, put-Good, remove-Good, clear-Good, clear_expired-Good,
  flush-Good, evict-Good,
}

pub data Call : Type 0 where
  put_call : ℕ → Text → CachedResource → Call
  remove_call : Text → Call
  clear_call : Call
  clear_expired_call : ℕ → Call
  flush_call : Call
  task_call : Task → Call

module _ (E : Platform) where
  unfoldable pub step : ResourceCache E → Call → ResourceCache E
  unfolding put remove clear clear_expired flush run_task
  step c (Call.put_call now url r) = (put E c now url r).1
  step c (Call.remove_call url) = remove E c url
  step c Call.clear_call = (clear E c).1
  step c (Call.clear_expired_call now) = (clear_expired E c now).1
  step c Call.flush_call = (flush E c).1
  step c (Call.task_call t) = run_task E c t

  unfoldable pub run : ResourceCache E → List Call → ResourceCache E
  unfolding step
  run c [] = c
  run c (x ∷ xs) = run (step c x) xs

  task-Good : (c : ResourceCache E) (t : Task) → Good E c → Good E (run_task E c t)
  unfolding run_task
  task-Good c (Task.remove_async k) h = remove-Good E c k h
  task-Good c Task.evict_if_needed h = evict-Good E c h

  step-Good : (c : ResourceCache E) (x : Call) → Good E c → Good E (step c x)
  unfolding step remove
  step-Good c (Call.put_call now url r) h = put-Good E c now url r h
  step-Good c (Call.remove_call url) h = remove-Good E c (url_to_key E url) h
  step-Good c Call.clear_call h = clear-Good E c
  step-Good c (Call.clear_expired_call now) h = clear_expired-Good E c now h
  step-Good c Call.flush_call h = flush-Good E c h
  step-Good c (Call.task_call t) h = task-Good c t h

  run-Good : (xs : List Call) (c : ResourceCache E) → Good E c → Good E (run c xs)
  unfolding run
  run-Good [] c h = h
  run-Good (x ∷ xs) c h = run-Good xs (step c x) (step-Good c x h)

  -- Whatever calls and spawned tasks run on a cache that starts without an index, in any order and
  -- with any failures of the file system, each entry stands under the digest of its URL and names
  -- the file that its key gives, so that `clear` and the other removals mean the same file.
  pub run-WellFormed :
      (disk : E.F.Disk) (dir : FilePath) (config : CacheConfig) (xs : List Call)
      → WellFormed E (run (new E disk dir config none) xs).metadata
  run-WellFormed disk dir config xs =
      run-Good xs (new E disk dir config none) (unfold new in WellFormed-empty E)
