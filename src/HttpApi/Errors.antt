-- ===== src/HttpApi/Errors.antt =====
-- The answer to a request about a device that there is not.
use manisa_app.Prelude.{◌≡◌, ◌⊎◌, String, true, false, none, some}
use manisa_app.Float.{Float64}
use manisa_app.Domain.Error.{Error}
use manisa_app.Text.Trim.{trim_space}
use manisa_app.Matter.{Controller}
use manisa_app.Application.World.{Service, World}
use manisa_app.Application.Devices.{is_blank, trimmed_command}
use manisa_app.Auth.{AuthService}
use manisa_app.HttpApi.Route.{commands_of}
use manisa_app.HttpApi.Requests.{DeviceCommandRequest, command_input, Request, decode_json}
use manisa_app.HttpApi.Handlers.{Env, handle, failure}

module _ {S C F : Type 0} ⦃fl : Float64 F⦄ (svc : Service S C F) (auth : AuthService S F)
    (env : Env S F) where
  -- How the handler of commands ends where there is no such device; `w'` is the world after the lookup.
  abbrev pub Refused : String → Request → World S C F → World S C F → Type 0
  Refused id req w w' =
      let done = handle svc auth env (commands_of id) req w in
      ((decode_json env.codec.command_request req.body ≡ none)
        × (done ≡ ((400, failure "invalid_json"), w)))
      ⊎ ((asked : DeviceCommandRequest F) × (decode_json env.codec.command_request req.body
            ≡ some asked)
          × (((is_blank svc (trim_space id) (trimmed_command svc (command_input asked)) ≡ true)
                × (done ≡ ((400, failure "invalid_input"), w)))
              ⊎ ((is_blank svc (trim_space id) (trimmed_command svc (command_input asked)) ≡ false)
                  × (((svc.matter ≡ none) × (done ≡ ((500, failure "internal_error"), w)))
                      ⊎ ((controller : Controller C F) × (svc.matter ≡ some controller)
                          × (done ≡ ((404, failure "not_found"), w')))))))
