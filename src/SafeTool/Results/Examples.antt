-- ===== src/SafeTool/Results/Examples.antt =====
-- Results of tool calls at concrete inputs.
use compshare_agent.Prelude.{false, [], ◌∷◌, ◌≡◌, refl}
use compshare_agent.Value.{Fields, str, arr, obj, nil, cons, end, field}
use compshare_agent.SafeTool.Params.Filter.{contains-first}
use compshare_agent.SafeTool.Results.{
  redacted, redact_fields, redact_value, redact_items, redact_all,
}
use compshare_agent.SafeTool.Results.Redaction.{leaks, leaks-redact_all}

-- An invoice in a list, with its number and its address.
abbrev invoices : Fields
invoices =
    field "Invoices"
      (arr (
        cons (obj (field "InvoiceNo" (str "0042") (field "ExpressAddress" (str "Main St 1") end)))
          nil))
      end

one_blanked :
    redact_fields "InvoiceNo" invoices
    ≡ field "Invoices"
        (arr (
          cons
            (obj (field "InvoiceNo" (str redacted) (field "ExpressAddress" (str "Main St 1") end)))
            nil))
        end
unfolding redact_fields redact_value redact_items
one_blanked = refl

leaks-redact_all_example :
    leaks "ExpressAddress" (redact_all ("InvoiceNo" ∷ "ExpressAddress" ∷ []) invoices) ≡ false
leaks-redact_all_example =
    leaks-redact_all "ExpressAddress" ("InvoiceNo" ∷ "ExpressAddress" ∷ []) invoices (
      rw (contains-first "ExpressAddress" "InvoiceNo" ("ExpressAddress" ∷ []))
        (rw (contains-first "ExpressAddress" "ExpressAddress" []) refl))
