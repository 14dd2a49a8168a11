-- ===== src/Printing/Binding.antt =====
-- Which printer a station prints on, and on which paper: `resolvePrinterBinding` of
-- app/pats/print-job.ts, `clampGloryLWidthMm` of app/pats/label-ir.ts and `selectPrintPort` of
-- app/pats/print-ports.ts.
pub mod Laws
use Prim.Native.String.{◌++◌ as join}
use bnpi_pats_api.Base.{
  ℕ, min, String, Option, none, some, Bool, true, false, ◌||◌, ◌==◌, ltb, str_eq, is_some, get_or,
  or_else, if◌then◌else◌,
}
use bnpi_pats_api.Base.Text
use bnpi_pats_api.Printing.{Station, Environment}

pub record Binding : Type 0 where
  pub connection : Option String
  pub address : Option String
  pub width_mm : ℕ
  pub height_mm : ℕ
  pub dpi : ℕ

pub data Port : Type 0 where
  network_raw windows_spooler simulated : Port

-- `selectPrintPort`
unfoldable pub select_print_port : Option String → Port
select_print_port none = simulated
select_print_port (some connection) =
    if str_eq connection "NETWORK"
    then network_raw
    else if str_eq connection "USB_AGENT"
    then windows_spooler
    else simulated

-- `value?.trim() || null`
unfoldable pub trimmed : Option String → Option String
trimmed none = none
trimmed (some text) = if Text.is_empty (Text.trim text) then none else some (Text.trim text)

unfoldable pub is_winspool : Option String → Bool
is_winspool none = false
is_winspool (some address) = Text.starts_with "winspool:" (Text.lower address)

-- `clampGloryLWidthMm`, on whole numbers.
unfoldable pub clamp_glory_l_width_mm : ℕ → ℕ
clamp_glory_l_width_mm width = if width == 0 then 100 else min width 104

abbrev pub is_connection : String → Option String → Bool
is_connection name none = false
is_connection name (some connection) = str_eq connection name

abbrev pub usb_requested : Option String → Option String → Option String → Bool
usb_requested connection windows_name station_address =
    is_connection "USB_AGENT" connection || is_some windows_name || is_winspool station_address

abbrev usb_address : Option String → Option String → Option String
usb_address windows_name station_address =
    if is_winspool station_address
    then station_address
    else elim windows_name [ none ↦ station_address | some name ↦ some (join "winspool:" name) ]

-- The address and the connection, from the trimmed values.
unfoldable pub bound :
    Option String → Option String → Option String → Option String → Option String × Option String
bound connection windows_name env_address station_address =
    if usb_requested connection windows_name station_address
    then (usb_address windows_name station_address, some "USB_AGENT")
    else let address = or_else station_address env_address in
      (
        address,
        (if is_connection "NETWORK" connection || is_some address
            then some "NETWORK"
            else connection),
      )

abbrev pub positive : Option ℕ → Option ℕ
positive none = none
positive (some n) = if ltb 0 n then some n else none

unfoldable pub resolve_printer_binding : Environment → Station → Binding
resolve_printer_binding env station =
    let (address, connection) =
      bound station.printer_connection (trimmed env.windows_name) (trimmed env.address)
        (trimmed station.printer_address) in
    record {
      connection = connection;
      address = address;
      width_mm = clamp_glory_l_width_mm (get_or station.label_width_mm (get_or env.width_mm 100));
      height_mm = get_or station.label_height_mm (get_or (positive env.height_mm) 150);
      dpi = get_or station.printer_dpi 300;
    }
