-- ===== src/Dns/Pool.antt =====
-- src/dns/doh_client.rs: the pool of connections to the DoH servers. A connection is a parameter,
-- and instants are in nanoseconds.
use hakimi_hub.Prelude.{
  ltb, leb, ◌==◌, if◌then◌else◌, ltb→lt, lt→ltb, leb→le, le→leb, ==_iff, ==_refl, Bool-cases,
  Option-cases, &&-elim, &&-intro, ||-elim, is_some, present, length, get_elem?, take, drop,
  is_empty, any, all, select, All, length-append, take-append-drop, length-take, length-drop,
  take-length_append, drop-length_append, All-append, ℕ, zero, suc, ◌+◌, ◌-◌, ◌*◌, ◌/◌, ◌%◌, ◌^◌,
  ◌≤◌, ◌<◌, ◌≡◌, refl, sym, ap, ◌∙◌, ◌≢◌, ◌↔◌, ◌⊎◌, inl, inr, Bool, true, false, not, ◌&&◌, ◌||◌,
  Option, none, some, List, [], ◌∷◌, ◌++◌, map, arith,
}
use hakimi_hub.Prelude.Str.{Text, codes}
use hakimi_hub.Prelude.Str
use mathlib.Core.Option
use mathlib.Core.List
use hakimi_hub.Utils.Containers.{MapOps, LruOps}
pub mod Reuse

pub record PoolEntry (S : Type 0) : Type 0 where
  pub stream : S
  pub last_used : ℕ

abbrev pub connection_pool_ttl : ℕ
connection_pool_ttl = 60000000000

abbrev pub max_pool_size : ℕ
max_pool_size = 50

-- `format!("{}:443", host)`
abbrev pub pool_key : Text → Text
pool_key host = host ++ codes ":443"

module _ {S : Type 0} (dec : Discrete Text) (M : MapOps dec (PoolEntry S)) (L : LruOps dec) where
  pub record Pool : Type 0 where
    pub connection_pool : M.Map
    pub lru_index : L.Index

  unfoldable pub evict_oldest_connection : Pool → Pool
  evict_oldest_connection p = elim (L.pop_lru p.lru_index) [
    | none ↦ p
    | some (key, index) ↦ record {
      connection_pool = M.remove p.connection_pool key;
      lru_index = index;
    }
  ]

  abbrev pub taken : Pool → Text → Pool
  taken p key = record {
    connection_pool = M.remove p.connection_pool key;
    lru_index = L.pop p.lru_index key;
  }

  -- A connection is taken out in any case, and handed over only if it is not too old.
  unfoldable pub acquire_connection : Pool → Text → ℕ → Option S × Pool
  acquire_connection p host later =
      let key = pool_key host in
      elim (M.get p.connection_pool key) [
        | none ↦ (none, p)
        | some e ↦
            if leb connection_pool_ttl (later - e.last_used)
            then (none, taken p key)
            else (some e.stream, taken p key)
      ]

  -- The loop that makes room; `fuel` is the attempts that are left of `MAX_POOL_SIZE + 1`.
  unfoldable pub make_room : ℕ → Pool → Pool
  unfolding evict_oldest_connection
  make_room zero p = p
  make_room (suc fuel) p =
      let q = evict_oldest_connection p in
      let rest = make_room fuel q in
      if ltb (M.len p.connection_pool) max_pool_size
      then p
      else if M.len q.connection_pool == 0
      then q
      else rest

  abbrev pub added : Pool → Text → S → ℕ → Pool
  added p key stream now = record {
    connection_pool = M.insert p.connection_pool key (record { stream = stream; last_used = now });
    lru_index = L.put p.lru_index key;
  }

  unfoldable pub return_connection : Pool → Text → S → ℕ → Pool
  unfolding make_room
  return_connection p host stream now =
      let key = pool_key host in
      let q = make_room (max_pool_size + 1) p in
      if is_some (M.get p.connection_pool key)
      then p
      else if ltb (M.len q.connection_pool) max_pool_size
      then (if is_some (M.get q.connection_pool key) then q else added q key stream now)
      else q
