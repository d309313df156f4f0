-- ===== src/Tests/Movies/Shelf.antt =====
-- Requests to the database with one film, against the shelf.
use c_computer_networking.Prelude.Int.{pos, negsuc}
use c_computer_networking.Movies.Server.{
  HttpRequest, delete, new_response, film_collection, film_resource,
}
use c_computer_networking.Movies.Server.Plain.{IsPlain}
use c_computer_networking.Movies.Server.Shelf.{
  shelf_of, Refines, on_collection, film_collection-Refines,
}
use c_computer_networking.Movies.Server.Shelf.Resource.{on_resource, film_resource-Refines}
use c_computer_networking.Movies.Database.{Database, db_create}
use c_computer_networking.Movies.Database.Consistent.{IsConsistent}
use c_computer_networking.Movies.Server.Session.{
  Call, to_collection, to_film, main, on_calls, AdmitsAll, main_refines,
}
use c_computer_networking.Prelude.{◌≡◌, List, [], ◌∷◌, arith}
use c_computer_networking.Prelude.Outcome.{ok}
use c_computer_networking.Tests.Movies.{
  at_film, hash, json, one, one-IsConsistent, one-room, keeps, post_request, put_request,
  post_request-IsPlain, put_request-IsPlain, at_film-IsPlain,
}

film_collection-Refines_example :
    Refines hash
      (film_collection hash json one post_request new_response)
      (on_collection json (shelf_of one) post_request new_response)
film_collection-Refines_example =
    film_collection-Refines hash json one one-IsConsistent post_request new_response
      post_request-IsPlain one-room

film_resource-Refines_example :
    Refines hash
      (film_resource hash json (negsuc 4) (pos 9) one put_request new_response)
      (on_resource json (negsuc 4) (pos 9) (shelf_of one) put_request new_response)
film_resource-Refines_example =
    film_resource-Refines hash json one one-IsConsistent put_request new_response (negsuc 4) (pos 9)
      put_request-IsPlain keeps

abbrev deletion : HttpRequest
deletion = record at_film { method = delete }

deletion-IsPlain : IsPlain deletion
deletion-IsPlain = record { posts = λ is_post. cc; gets = λ is_get. cc; puts = λ text is_put e. cc }

-- a film is added, read and deleted
abbrev calls : List Call
calls =
    to_collection post_request
    ∷ to_film (negsuc 4) (pos 9) at_film
    ∷ to_film (negsuc 4) (pos 9) deletion
    ∷ []

calls-AdmitsAll : AdmitsAll json (shelf_of db_create) calls
unfolding db_create
calls-AdmitsAll = (
  (post_request-IsPlain, omega arith),
  ((at_film-IsPlain, λ f d found is_put e. cc), ((deletion-IsPlain, λ f d found is_put e. cc), tt)),
)

main_refines_example :
    (last : Database) × (main hash json calls
      ≡ ok (last, (on_calls json (shelf_of db_create) calls).1))
    × (shelf_of last ≡ (on_calls json (shelf_of db_create) calls).0)
    × IsConsistent hash last
main_refines_example = main_refines hash json calls calls-AdmitsAll
