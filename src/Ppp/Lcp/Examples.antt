-- ===== src/Ppp/Lcp/Examples.antt =====
-- Concrete LCP messages.
use ipxbox.Common.{ℕ, ◌≡◌, ◌≢◌, refl, arith, List, [], ◌∷◌, ◌++◌, some, ok, err}
use ipxbox.Ppp.Lcp.{
  LcpOption, Lcp, configure, slice_panic, out_of_fuel, marshal_options, unmarshal_options,
  unmarshal_configure, marshal_data, unmarshal, marshal,
}
use ipxbox.Ppp.Lcp.Options.{
  unmarshal_configure-marshal, unmarshal_configure-ne-out_of_fuel, unmarshal_configure_panics,
  marshal-unmarshal_configure,
}
use ipxbox.Ppp.Lcp.Messages.{LcpFits, lcp_unmarshal-marshal, lcp_unmarshal-ne-out_of_fuel}

-- A Configure-Request with a magic number.
abbrev options : List LcpOption
options = record { type = 5; body = 1 ∷ 2 ∷ 3 ∷ 4 ∷ [] } ∷ []

abbrev request : Lcp
request = record { contents = []; type = 1; identifier = 9; body = some (configure options) }

abbrev wire : List ℕ
wire = 1 ∷ 9 ∷ 0 ∷ 10 ∷ 5 ∷ 6 ∷ 1 ∷ 2 ∷ 3 ∷ 4 ∷ []

request-wire : marshal request ≡ wire
unfolding marshal marshal_data marshal_options
request-wire = refl

request-LcpFits : LcpFits request
unfolding marshal_data marshal_options
request-LcpFits = record { body_fits = (refl, omega arith); length_fits = omega arith }

lcp_unmarshal-marshal_example :
    unmarshal (marshal request) ≡ ok (record request { contents = marshal request })
lcp_unmarshal-marshal_example = lcp_unmarshal-marshal request request-LcpFits

lcp_unmarshal-ne-out_of_fuel_example : unmarshal wire ≢ err out_of_fuel
lcp_unmarshal-ne-out_of_fuel_example = lcp_unmarshal-ne-out_of_fuel wire

unmarshal_configure-marshal_example :
    unmarshal_configure (marshal_options options) ≡ ok (configure options)
unmarshal_configure-marshal_example = unmarshal_configure-marshal options (omega arith)

unmarshal_configure-ne-out_of_fuel_example : unmarshal_configure wire ≢ err out_of_fuel
unmarshal_configure-ne-out_of_fuel_example = unmarshal_configure-ne-out_of_fuel wire

-- One good option, then one of length 1.
unmarshal_configure_panics_example :
    unmarshal_configure (marshal_options options ++ (7 ∷ 1 ∷ 0 ∷ [])) ≡ err slice_panic
unmarshal_configure_panics_example =
    unmarshal_configure_panics options 7 1 (0 ∷ []) (omega arith) (omega arith)

decodes : unmarshal_configure (5 ∷ 6 ∷ 1 ∷ 2 ∷ 3 ∷ 4 ∷ []) ≡ ok (configure options)
unfolding unmarshal_configure unmarshal_options
decodes = refl

marshal-unmarshal_configure_example : marshal_options options ≡ 5 ∷ 6 ∷ 1 ∷ 2 ∷ 3 ∷ 4 ∷ []
marshal-unmarshal_configure_example =
    marshal-unmarshal_configure (5 ∷ 6 ∷ 1 ∷ 2 ∷ 3 ∷ 4 ∷ []) options (omega arith) decodes
