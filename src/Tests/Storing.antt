-- ===== src/Tests/Storing.antt =====
-- Runs of the resource cache, on lists of files.
use hakimi_hub.Prelude.{◌≤◌, ◌<◌, ◌≡◌, refl, ap, true, none, some, List, [], ◌∷◌, ◌++◌, arith}
use hakimi_hub.Prelude.Str.{Text, codes}
use hakimi_hub.Prelude.{◌*◌}
use mathlib.Core.Path.{subst}
use native.Mathlib.Decide.{ℕ_discrete}
use mathlib.Core.List.{List-discrete}
use hakimi_hub.Config.Sections.{CacheConfig}
use hakimi_hub.Utils.Containers.Lists.{list_map}
use hakimi_hub.Utils.Containers.Lists
use hakimi_hub.Utils.Containers
use hakimi_hub.Utils.Containers.Sums.{total, size_or}
use hakimi_hub.Proxy.Response.{CachedResource}
use hakimi_hub.Cache.Files.{list_files}
use hakimi_hub.Cache.Store.{
  CacheMetadata, Platform, ResourceCache, Task, mebibytes, new, put, get, url_to_key,
}
use hakimi_hub.Cache.Cleanup.{run_task, clear_expired}
use hakimi_hub.Cache.RoundTrip.{put-get}
use hakimi_hub.Cache.Clear.{clear_expired-lifetime, within_lifetime}
use hakimi_hub.Cache.Sizes.{stored_size}
use hakimi_hub.Cache.Victims.{Stored}
use hakimi_hub.Cache.Evict.{Unlinks}
use hakimi_hub.Cache.Budget.{put-evict-fits}
use hakimi_hub.Cache.WellFormed.{WellFormed}
use hakimi_hub.Cache.Calls.{Call, run, run-WellFormed}

abbrev text_discrete : Discrete Text
text_discrete = List-discrete ℕ_discrete

abbrev platform : Platform
platform = record {
  dec = text_discrete;
  M = list_map text_discrete;
  F = list_files (List-discrete text_discrete);
  digest = λ url. codes "0f" ++ url;
  to_json = λ es. some (codes "{}");
}

abbrev config : CacheConfig
config = record { enabled = true; ttl_days = 7; max_size_mb = 1; max_file_size_mb = 1 }

abbrev start : ResourceCache platform
start = new platform (list_map (List-discrete text_discrete)).empty (codes "cache" ∷ []) config none

abbrev icon_url : Text
icon_url = codes "https://github.com/a.png?v=1"

abbrev icon : CachedResource
icon = record {
  content_type = codes "image/png";
  data_bytes = 1 ∷ 2 ∷ 3 ∷ [];
  etag = none;
  last_modified = none;
}

icon_stored : (put platform start 1000 icon_url icon).0 ≡ (true, some Task.evict_if_needed)
unfolding put new list_map Lists.get
icon_stored = refl

put-get_example :
    get platform (put platform start 1000 icon_url icon).1 2000 icon_url ≡ (some icon, none)
unfolding new
put-get_example = put-get platform start 1000 2000 icon_url icon refl icon_stored (omega arith)

abbrev with_icon : ResourceCache platform
with_icon = (put platform start 1000 icon_url icon).1

abbrev icon_entry : CacheMetadata
icon_entry = record {
  url = icon_url;
  content_type = codes "image/png";
  etag = none;
  last_modified = none;
  created_at = 1000;
  last_accessed = 1000;
  file_size = 3;
  file_path = codes "0f" ∷ icon_url ∷ [];
}

same_key :
    (m : platform.M.Map) (k : Text) (v : CacheMetadata)
    → platform.M.get (platform.M.insert m k v) k ≡ some v
same_key m k v = ground (arith, platform.M.get-insert m k v k)

icon_found : platform.M.get with_icon.metadata (url_to_key platform icon_url) ≡ some icon_entry
unfolding put new
icon_found = same_key platform.M.empty (url_to_key platform icon_url) icon_entry

icon_past :
    (m : CacheMetadata)
    → platform.M.get with_icon.metadata (url_to_key platform icon_url) ≡ some m
    → m.created_at ≤ 1000000
icon_past m e =
    let f : some icon_entry ≡ some m = cc (icon_found, e) in
    let g : icon_entry ≡ m = cc f in subst (λ x. x.created_at ≤ 1000000) g (omega arith)

with_days : with_icon.config.ttl_days * 86400 < 18446744073709551616
unfolding put new
with_days = omega arith

clear_expired-lifetime_example :
    platform.M.get
      (clear_expired platform with_icon 1000000).1.metadata
      (url_to_key platform icon_url)
    ≡ within_lifetime platform with_icon.config.ttl_days 1000000
        (platform.M.get with_icon.metadata (url_to_key platform icon_url))
clear_expired-lifetime_example =
    clear_expired-lifetime platform with_icon 1000000 (url_to_key platform icon_url) icon_past
      (omega arith) with_days

unlinks : Unlinks platform
unlinks d p h = h

start-Stored : Stored platform start
unfolding new list_map Lists.get
start-Stored k m e = absurd (cc e)

small : stored_size platform with_icon < 18446744073709551616
unfolding put new list_map Lists.get Lists.keys Containers.without total
small = omega (arith, ap (size_or text_discrete platform.M (λ m. m.file_size)) icon_found)

put-evict-fits_example :
    stored_size platform (run_task platform with_icon Task.evict_if_needed)
    ≤ mebibytes start.config.max_size_mb
put-evict-fits_example =
    put-evict-fits platform unlinks start 1000 icon_url icon start-Stored icon_stored small

abbrev calls : List Call
calls =
    Call.put_call 1000 icon_url icon
    ∷ Call.task_call Task.evict_if_needed
    ∷ Call.clear_expired_call 2000
    ∷ Call.flush_call
    ∷ []

run-WellFormed_example : WellFormed platform (run platform start calls).metadata
run-WellFormed_example =
    run-WellFormed platform (list_map (List-discrete text_discrete)).empty (codes "cache" ∷ [])
      config calls
