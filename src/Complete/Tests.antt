-- ===== src/Complete/Tests.antt =====
-- A reader that goes on with the listing after two entries.
use filesystem_lab.Base.{◌-◌, ◌≤◌, ◌≡◌, [], arith}
use filesystem_lab.Memory.Readdir.{Context}
use filesystem_lab.Complete.{entries, readdir}
use filesystem_lab.Complete.Listing.{first, listing_restarts}

abbrev half_way : Context
half_way = record { pos = 2; room = 10; out = [] }

listing_restarts_example :
    ((readdir half_way).out ≡ first (4 - 2) entries) × (4 ≤ (readdir half_way).pos)
listing_restarts_example = listing_restarts half_way (omega arith)
