-- ===== src/Hyperbahn/RateLimiter/Limits.antt =====
-- Which limits `updateRpsLimitForAllServices` leaves in force.
use tchannel.Prelude.{
  ℕ, ◌≡◌, refl, ◌∙◌, ◌⊎◌, String, List, [], ◌∷◌, Option, none, some, arith, if◌then◌else◌, contains,
  string_eq,
}
use tchannel.Prelude.Dict
use tchannel.Prelude.Dict.{Dict}
use tchannel.Hyperbahn.RateLimiter.{
  RateLimiter, Limit, num, default, limit_or, is_number, as_limit, set_counter_limit, each,
  update_service_limit, update_known, update_new, update_rps_limit_for_all_services,
  get_rps_limit_for_service,
}

abbrev stored : String → RateLimiter → Option Limit
stored name l = Dict.get name l.rps_limit_for_service_name

-- what is stored for a limit: nothing for 'default'
abbrev kept : Limit → Option Limit
kept default = none
kept (num n) = some (num n)

set_counter_limit-rest :
    (name : String) (n : ℕ) (l : RateLimiter)
    → ((set_counter_limit name n l).rps_limit_for_service_name ≡ l.rps_limit_for_service_name)
      × ((set_counter_limit name n l).default_service_rps_limit ≡ l.default_service_rps_limit)
unfolding set_counter_limit
set_counter_limit-rest name n l = ground arith

pub stored-update_service_limit :
    (j k : String) (limit : Limit) (l : RateLimiter)
    → stored j (update_service_limit k limit l)
      ≡ (if string_eq.beq k j then kept limit else stored j l)
unfolding update_service_limit
stored-update_service_limit j k default l =
    ground (arith, Dict.get-remove j k l.rps_limit_for_service_name)
stored-update_service_limit j k (num n) l =
    ground (arith, Dict.get-put j k (num n) l.rps_limit_for_service_name)

-- what the new limits make of one service
abbrev wanted : Dict String Limit → String → Option Limit
wanted limits name = kept (as_limit (Dict.get name limits))

stored-update_known :
    (limits : Dict String Limit) (j k : String) (l : RateLimiter)
    → stored j (update_known limits k l)
      ≡ (if string_eq.beq k j then wanted limits j else stored j l)
unfolding update_known
stored-update_known limits j k l = ground (
  arith,
  string_eq.beq_iff k j,
  stored-update_service_limit j k (as_limit (Dict.get k limits)) l,
  stored-update_service_limit j k default
      (record l { rps_limit_for_service_name = Dict.remove k l.rps_limit_for_service_name }),
  Dict.get-remove j k l.rps_limit_for_service_name,
)

stored-update_new :
    (limits : Dict String Limit) (j k : String) (l : RateLimiter)
    → stored j (update_new limits k l) ≡ (
        if string_eq.beq k j
        then (if is_number (stored j l) then stored j l else wanted limits j)
        else stored j l)
unfolding update_new
stored-update_new limits j k l =
    ground (
      arith,
      string_eq.beq_iff k j,
      stored-update_service_limit j k (as_limit (Dict.get k limits)) l,
    )

default-update_service_limit :
    (k : String) (limit : Limit) (l : RateLimiter)
    → (update_service_limit k limit l).default_service_rps_limit ≡ l.default_service_rps_limit
unfolding update_service_limit
default-update_service_limit k default l = ground arith
default-update_service_limit k (num n) l = ground arith

default-update_known :
    (limits : Dict String Limit) (k : String) (l : RateLimiter)
    → (update_known limits k l).default_service_rps_limit ≡ l.default_service_rps_limit
unfolding update_known
default-update_known limits k l = ground (
  arith,
  default-update_service_limit k (as_limit (Dict.get k limits)) l,
  default-update_service_limit k default
      (record l { rps_limit_for_service_name = Dict.remove k l.rps_limit_for_service_name }),
)

default-update_new :
    (limits : Dict String Limit) (k : String) (l : RateLimiter)
    → (update_new limits k l).default_service_rps_limit ≡ l.default_service_rps_limit
unfolding update_new
default-update_new limits k l =
    ground (arith, default-update_service_limit k (as_limit (Dict.get k limits)) l)

default-each :
    (f : String → RateLimiter → RateLimiter)
    → ((k : String) (l : RateLimiter)
        → (f k l).default_service_rps_limit ≡ l.default_service_rps_limit)
    → (ks : List String) (l : RateLimiter)
    → (each f ks l).default_service_rps_limit ≡ l.default_service_rps_limit
unfolding each
default-each f keep [] l = refl
default-each f keep (k ∷ ks) l = default-each f keep ks (f k l) ∙ keep k l

-- The first loop settles every service that had a limit, the second one every other.
each-update_known :
    (limits : Dict String Limit) (j : String) (ks : List String) (l : RateLimiter)
    → stored j (each (update_known limits) ks l)
      ≡ (if contains ks j then wanted limits j else stored j l)
unfolding each
each-update_known limits j [] l = refl
each-update_known limits j (k ∷ ks) l = ground (
  arith,
  each-update_known limits j ks (update_known limits k l),
  stored-update_known limits j k l,
)

each-update_new :
    (limits : Dict String Limit) (j : String) (ks : List String) (l : RateLimiter)
    → (stored j l ≡ none) ⊎ (stored j l ≡ wanted limits j)
    → stored j (each (update_new limits) ks l)
      ≡ (if contains ks j then wanted limits j else stored j l)
unfolding each
each-update_new limits j [] l h = refl
each-update_new limits j (k ∷ ks) l h =
    let l' = update_new limits k l in
    let h' : (stored j l' ≡ none) ⊎ (stored j l' ≡ wanted limits j) =
      ground (arith, stored-update_new limits j k l) in
    ground (arith, each-update_new limits j ks l' h', stored-update_new limits j k l)

-- After updateRpsLimitForAllServices each service has the limit that the new table gives it, or the
-- default where the table has no number, whatever limits were in force before.
pub update_rps_limit_for_all_services_lem :
    (limits : Dict String Limit) (l : RateLimiter) (name : String)
    → get_rps_limit_for_service (update_rps_limit_for_all_services limits l) name
      ≡ limit_or l.default_service_rps_limit (Dict.get name limits)
unfolding get_rps_limit_for_service update_rps_limit_for_all_services
update_rps_limit_for_all_services_lem limits l name =
    let known = each (update_known limits) (Dict.keys l.rps_limit_for_service_name) l in
    let first = each-update_known limits name (Dict.keys l.rps_limit_for_service_name) l in
    let old = Dict.get-contains-keys name l.rps_limit_for_service_name in
    let new = Dict.get-contains-keys name limits in
    let mid : (stored name known ≡ none) ⊎ (stored name known ≡ wanted limits name) =
      ground (arith, first, old) in
    ground (
      arith,
      mid,
      new,
      each-update_new limits name (Dict.keys limits) known mid,
      default-each (update_new limits) (default-update_new limits) (Dict.keys limits) known,
      default-each (update_known limits) (default-update_known limits)
          (Dict.keys l.rps_limit_for_service_name) l,
    )
