-- ===== src/Tests/Objects.antt =====
-- The conversions of sdk/js/src/generated/proto.js at concrete inputs.
use ibridger.Common.{◌≡◌, refl, arith, some, none, true, []}
use ibridger.Errors.{ok}
use ibridger.Proto.Objects.{Options, as_text, as_array, no_options, value}
use ibridger.Proto.Objects.Plain.{plain_util, plain_util-IsUtil}
use ibridger.Proto.Envelope.Objects
use ibridger.Proto.Envelope.Objects.RoundTrip.{
  from_object-to_object_envelope, verify-to_object_envelope,
}
use ibridger.Proto.Pong.Objects as PongObjects
use ibridger.Proto.Pong.Objects.{from_object-to_object_pong, verify-to_object_pong}
use ibridger.Proto.ServiceDescriptor.Objects as DescriptorObjects
use ibridger.Proto.ServiceDescriptor.Objects.{
  from_object-to_object_descriptor, verify-to_object_descriptor,
}
use ibridger.Tests.Envelopes.{greeting, greeting-IsMap}
use ibridger.Tests.Messages.{answered, described}

-- Names, texts and arrays, with every default.
abbrev wordy : Options
wordy = record {
  enums = true;
  longs = as_text;
  bytes = as_array;
  defaults = true;
  arrays = true;
  objects = true;
}

from_object-to_object_envelope_example :
    Objects.from_object plain_util (value (Objects.to_object plain_util wordy greeting))
    ≡ ok (record greeting { method_name = some []; status = some 0; error_message = some [] })
from_object-to_object_envelope_example =
    from_object-to_object_envelope plain_util plain_util-IsUtil wordy greeting (record {
      type = omega arith;
      request_id = omega arith;
      status = tt;
      metadata = greeting-IsMap;
    })

verify-to_object_envelope_example :
    Objects.verify plain_util (Objects.to_object plain_util no_options greeting) ≡ none
verify-to_object_envelope_example =
    verify-to_object_envelope plain_util plain_util-IsUtil no_options greeting (record {
      type = omega arith;
      status = tt;
      metadata = greeting-IsMap;
      enums = refl;
      longs = λ e. cc;
    })

from_object-to_object_pong_example :
    PongObjects.from_object plain_util (value (PongObjects.to_object plain_util wordy answered))
    ≡ ok answered
from_object-to_object_pong_example =
    from_object-to_object_pong plain_util plain_util-IsUtil wordy answered (omega arith)

from_object-to_object_descriptor_example :
    DescriptorObjects.from_object plain_util
      (value (DescriptorObjects.to_object plain_util wordy described))
    ≡ ok described
from_object-to_object_descriptor_example =
    from_object-to_object_descriptor plain_util plain_util-IsUtil wordy described

verify-to_object_descriptor_example :
    DescriptorObjects.verify plain_util (DescriptorObjects.to_object plain_util wordy described)
    ≡ none
verify-to_object_descriptor_example =
    verify-to_object_descriptor plain_util plain_util-IsUtil wordy described
