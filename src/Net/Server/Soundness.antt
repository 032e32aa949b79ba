-- ===== src/Net/Server/Soundness.antt =====
-- src/net/server.cpp: the store and the buffers, through the events and the ticks.
use tiny_redis.Base.Int.{ℤ}
use tiny_redis.Net.Server.Health.{IsTime, IsHealthy}
use tiny_redis.Net.Server.History.{Reach, start, looped, delivered, ticked}
use tiny_redis.Net.Server.{Server}
use tiny_redis.Store.Cap.{IsReady}
use tiny_redis.Store.{Store}
use tiny_redis.Table.Pool.{EntryPool}

module _ {p : EntryPool} where
  -- A time, and the server after it was told.
  abbrev Told : ℤ × Server p → Type 0
  Told r = IsTime r.0 × IsHealthy r.1

  -- The store that the server starts with is ready, and no clock that is read stands before the epoch.
  abbrev pub StartsWell : {s : Server p} → Reach s → Type 0
  StartsWell (start cfg store reserve) = IsReady store
  StartsWell (looped r l) = StartsWell r
  StartsWell (delivered r e run) = IsTime e.answers.clock × StartsWell r
  StartsWell (ticked r a run) = IsTime a.clock × StartsWell r
