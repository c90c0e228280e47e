-- ===== src/Examples/Prices.antt =====
-- The page of the concert, and what the reservation of two of its seats costs.
use ki_ticket.Base.{◌≡◌, refl, true, [], ◌∷◌}
use ki_ticket.Outcome.{Result}
use ki_ticket.Database.{list_repository}
use ki_ticket.Redis.{memory}
use ki_ticket.Entities.{Venue}
use ki_ticket.World.{Db}
use ki_ticket.EventPage.{EventDetail, detail}
use ki_ticket.SeatMap.{chosen, total_of}
use ki_ticket.SeatMap.Total.{SameCatalog, create-total_of}
use ki_ticket.Examples.Shop.{shop, opening, ada, around}
use ki_ticket.Examples.Sales.{is_ok, returned}
use ki_ticket.Examples.Requests.{two_seats, morning, reserving, reserving_returns, reservation}

abbrev hall : Venue
hall = record { id = 3; name = "Hall"; city = "Tehran"; address = "" }

unfoldable page_db : Db shop
unfolding opening list_repository
page_db = record opening { venues = (hall ∷ [], refl) }

abbrev reading : Result EventDetail × Db shop
reading = detail shop 500 7 page_db

reading_returns : is_ok reading.0 ≡ true
unfolding detail page_db opening list_repository
reading_returns = refl

abbrev detail_read : EventDetail
detail_read = (returned reading.0 reading_returns).0

same_catalog : SameCatalog shop memory (around 40 1000) ada two_seats morning page_db
unfolding page_db opening morning
same_catalog = record { events = refl; sectors = refl; seats = refl; prices = refl }

create-total_of_example :
    total_of (chosen detail_read.inventory two_seats.seat_ids) ≡ reservation.total_amount
create-total_of_example =
    create-total_of shop memory (around 40 1000) ada two_seats morning 500 page_db detail_read
      reservation (returned reading.0 reading_returns).1 same_catalog
      (returned reserving.0 reserving_returns).1
