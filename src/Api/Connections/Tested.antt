-- ===== src/Api/Connections/Tested.antt =====
-- What is answered to a request to test a connection.
use migrate_app_backend.Base.{
  String, some, true, Result, ok, raise, out_of_fuel, Exception, is_ok, ok_of_is_ok, ◌≡◌, refl, sym,
  ◌∙◌,
}
use migrate_app_backend.Base.Calls.{Returns}
use migrate_app_backend.Migration.Value.{Python}
use migrate_app_backend.Providers.{Provider}
use migrate_app_backend.Providers.Registry.{Drivers, MysqlParams}
use migrate_app_backend.Providers.Registry.Reads.{Accepted}
use migrate_app_backend.Schemas.Connection.{ConnectionCredentials, validate_fields_for_method}
use migrate_app_backend.Schemas.Connection.Fields.{validate_fields_for_method-is_usable}
use migrate_app_backend.Services.ConnectionService.{
  ConnectionTestResponse, tested, test_provider, test_connection,
}
use migrate_app_backend.Services.ConnectionService.Accepts.{HasPort, get_provider-Accepted}
use migrate_app_backend.Utils.Json.{Scalar}
use migrate_app_backend.Api.Answers.{Answer, answer}
use migrate_app_backend.Api.Routes.{answered}
use migrate_app_backend.Api.Connections.{test_route}

-- The providers keep to the contract of `test_connection`, which raises nothing.
pub record IsTestable {P : Python} {W : Type 0} (drivers : Drivers P W) : Type 0 where
  pub postgres : (dsn : String) → Returns (drivers.postgres dsn).test_connection
  pub mysql : (params : MysqlParams) → Returns (drivers.mysql params).test_connection
  pub sqlite : (path : Scalar) → Returns (drivers.sqlite path).test_connection

module _ {P : Python} {W : Type 0} where
  abbrev Tests : Provider P W → Type 0
  Tests p = Returns p.test_connection

  answered_test :
      (r : Result (Provider P W)) (w : W)
      → Accepted Tests r
      → (response : ConnectionTestResponse P.Float) × ((answered 200 (test_provider r) w).0
          ≡ Answer.success 200 response)
  unfolding test_provider tested answer
  answered_test (ok p) w h =
      let (a, e) = ok_of_is_ok (p.test_connection w).0 (h.at w) in
      (record { success = a.0; message = a.1; latency_ms = some a.2 }, rw e refl)
  answered_test (raise (Exception.not_implemented m)) w h = (_, refl)
  answered_test (raise (Exception.value_error m)) w h = absurd h
  answered_test (raise (Exception.type_error m)) w h = absurd h
  answered_test (raise (Exception.http_not_found m)) w h = absurd h
  answered_test (raise (Exception.schema_incompatible m)) w h = absurd h
  answered_test (raise (Exception.soft_time_limit m)) w h = absurd h
  answered_test (raise (Exception.other_error m)) w h = absurd h
  answered_test out_of_fuel w h = absurd h

-- Where the providers' test_connection raises nothing, each request to test a connection whose
-- credentials are valid, whose URL, if it has one, can be parsed, and which has a port if it is a login
-- on a server, is answered with 200, whether or not the database can be reached, and also for a type of
-- database that get_provider does not support.
pub test_route-success :
    {P : Python} {W : Type 0} (drivers : Drivers P W) (req : ConnectionCredentials) (w : W)
    → IsTestable drivers
    → is_ok (validate_fields_for_method req) ≡ true
    → ((url : String) → req.database_url ≡ some url → is_ok (drivers.urlparse url) ≡ true)
    → HasPort req.connection_method req.database_type req.port
    → (response : ConnectionTestResponse P.Float) × ((test_route drivers req w).0
        ≡ Answer.success 200 response)
unfolding test_route test_connection
test_route-success drivers req w h valid parses port = answered_test _ w (
    get_provider-Accepted drivers Tests h.postgres h.mysql h.sqlite req
      (sym (validate_fields_for_method-is_usable req) ∙ valid) port parses)
