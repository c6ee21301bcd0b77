-- ===== src/Http/Sos/Examples.antt =====
-- Two members who resolve one SOS.
use aul_private_location.Base.{[], ◌∷◌}
use aul_private_location.Store.Schema.{SosEvent}
use aul_private_location.Store.{World}
use aul_private_location.Store.Sos.{new_sos}
use aul_private_location.Http.Examples.{home, steady}

abbrev alarm : SosEvent
alarm = new_sos 0 8 4 2 []

abbrev alarmed : World
alarmed = record steady { db = record home { sos_events = alarm ∷ [] } }
