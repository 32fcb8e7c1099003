-- ===== src/Wire/Runs.antt =====
-- Concrete shapes and sizes on which the theorems about the wire contract apply.
use otelcol_exporter_netflow.Common.{◌≡◌, refl}
use otelcol_exporter_netflow.Common.Result.{ok}
use otelcol_exporter_netflow.Wire.Model.{v5, ipv4, is_valid_field, same_bytes}
use otelcol_exporter_netflow.Wire.Names.{is_reserved_name}
use otelcol_exporter_netflow.Wire.Descriptors.{
  checked_add, checked_mul, validate_descriptor, minimum_length, validate_source, validate_encoding,
  is_listed_encoding, validate_v5, validate_protocol_rules, validate_widths, is_text_or_octets,
}
use otelcol_exporter_netflow.Wire.Shapes.{
  Shape, same_bool, same_descriptor, v5_field, same_fields, is_exact_v5_shape, same_identity,
  is_among, template_bytes_from, is_unknown_protocol, is_unknown_family, check_shape_bounds,
  template_matches, builtin_v5_exact_fields, check_fields, template_bytes_for, validate_shape,
  has_variable_fields,
}
use otelcol_exporter_netflow.Wire.Sizes.{encoded_set, filled_set, data_set_size_for_encoded}
use otelcol_exporter_netflow.Wire.Sizes.Padding.{Sized, data_set_size_for_encoded-Sized}

-- The one v5 shape.
abbrev v5_shape : Shape
v5_shape = record {
  protocol = v5;
  family = ipv4;
  id = 1;
  fields = builtin_v5_exact_fields;
  record_length = 48;
  template_bytes = 0;
}

two_records : data_set_size_for_encoded v5_shape 96 2 ≡ ok (record { length = 96; padding = 0 })
unfolding data_set_size_for_encoded filled_set encoded_set checked_mul validate_shape check_fields
    template_bytes_for builtin_v5_exact_fields has_variable_fields validate_descriptor
    minimum_length checked_add same_bytes is_valid_field is_reserved_name validate_source
    validate_encoding is_listed_encoding validate_v5 validate_protocol_rules validate_widths
    is_text_or_octets same_bool same_descriptor v5_field same_fields is_exact_v5_shape same_identity
    is_among template_bytes_from is_unknown_protocol is_unknown_family check_shape_bounds
    template_matches
two_records = refl

data_set_size_for_encoded-Sized_example : Sized v5_shape 96 2 (record { length = 96; padding = 0 })
data_set_size_for_encoded-Sized_example = data_set_size_for_encoded-Sized v5_shape 96 2 two_records
