-- ===== src/Printing/Binding/Laws.antt =====
-- When a label goes to a printer, and how wide it is.
use bnpi_pats_api.Base.{ℕ, String, Option, none, false, ◌≡◌, ◌↔◌, ◌≤◌, arith}
use bnpi_pats_api.Printing.{Station, Environment}
use bnpi_pats_api.Printing.Binding.{
  simulated, select_print_port, trimmed, is_winspool, clamp_glory_l_width_mm, is_connection, bound,
  resolve_printer_binding,
}

bound-simulated :
    (connection windows_name env_address station_address : Option String)
    → (select_print_port (bound connection windows_name env_address station_address).1 ≡ simulated)
      ↔ ((is_connection "USB_AGENT" connection ≡ false)
          × (is_connection "NETWORK" connection ≡ false)
          × (windows_name ≡ none)
          × (env_address ≡ none)
          × (station_address ≡ none))
unfolding bound select_print_port is_winspool
bound-simulated connection windows_name env_address station_address = ground arith

-- A label is only simulated exactly when the station asks for neither kind of connection and no
-- printer is named anywhere: no Windows printer in the environment, and no address in the
-- environment or at the station, blanks aside.
pub resolve_printer_binding-simulated :
    (env : Environment) (station : Station)
    → (select_print_port (resolve_printer_binding env station).connection ≡ simulated) ↔ (
        (is_connection "USB_AGENT" station.printer_connection ≡ false)
        × (is_connection "NETWORK" station.printer_connection ≡ false)
        × (trimmed env.windows_name ≡ none)
        × (trimmed env.address ≡ none)
        × (trimmed station.printer_address ≡ none))
unfolding resolve_printer_binding
resolve_printer_binding-simulated env station =
    bound-simulated station.printer_connection (trimmed env.windows_name) (trimmed env.address)
      (trimmed station.printer_address)

clamp-bounds :
    (width : ℕ) → (1 ≤ clamp_glory_l_width_mm width) × (clamp_glory_l_width_mm width ≤ 104)
unfolding clamp_glory_l_width_mm
clamp-bounds width = (ground arith, ground arith)
