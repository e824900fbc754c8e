-- ===== src/ContractFunction/Selector/Types.antt =====
-- The types of arguments and their names in a signature: contract_function_selector.go.
use hedera_sdk_go.Prelude.Text.{Bytes, codes}

pub data ArgumentType : Type 0 where
  bool : ArgumentType
  string : ArgumentType
  int8 : ArgumentType
  int16 : ArgumentType
  int24 : ArgumentType
  int32 : ArgumentType
  int40 : ArgumentType
  int48 : ArgumentType
  int56 : ArgumentType
  int64 : ArgumentType
  int72 : ArgumentType
  int80 : ArgumentType
  int88 : ArgumentType
  int96 : ArgumentType
  int104 : ArgumentType
  int112 : ArgumentType
  int120 : ArgumentType
  int128 : ArgumentType
  int136 : ArgumentType
  int144 : ArgumentType
  int152 : ArgumentType
  int160 : ArgumentType
  int168 : ArgumentType
  int176 : ArgumentType
  int184 : ArgumentType
  int192 : ArgumentType
  int200 : ArgumentType
  int208 : ArgumentType
  int216 : ArgumentType
  int224 : ArgumentType
  int232 : ArgumentType
  int240 : ArgumentType
  int248 : ArgumentType
  int256 : ArgumentType
  uint8 : ArgumentType
  uint16 : ArgumentType
  uint24 : ArgumentType
  uint32 : ArgumentType
  uint40 : ArgumentType
  uint48 : ArgumentType
  uint56 : ArgumentType
  uint64 : ArgumentType
  uint72 : ArgumentType
  uint80 : ArgumentType
  uint88 : ArgumentType
  uint96 : ArgumentType
  uint104 : ArgumentType
  uint112 : ArgumentType
  uint120 : ArgumentType
  uint128 : ArgumentType
  uint136 : ArgumentType
  uint144 : ArgumentType
  uint152 : ArgumentType
  uint160 : ArgumentType
  uint168 : ArgumentType
  uint176 : ArgumentType
  uint184 : ArgumentType
  uint192 : ArgumentType
  uint200 : ArgumentType
  uint208 : ArgumentType
  uint216 : ArgumentType
  uint224 : ArgumentType
  uint232 : ArgumentType
  uint240 : ArgumentType
  uint248 : ArgumentType
  uint256 : ArgumentType
  bytes : ArgumentType
  bytes32 : ArgumentType
  function : ArgumentType
  address : ArgumentType

unfoldable pub text : ArgumentType → Bytes
text bool = codes "bool"
text string = codes "string"
text int8 = codes "int8"
text int16 = codes "int16"
text int24 = codes "int24"
text int32 = codes "int32"
text int40 = codes "int40"
text int48 = codes "int48"
text int56 = codes "int56"
text int64 = codes "int64"
text int72 = codes "int72"
text int80 = codes "int80"
text int88 = codes "int88"
text int96 = codes "int96"
text int104 = codes "int104"
text int112 = codes "int112"
text int120 = codes "int120"
text int128 = codes "int128"
text int136 = codes "int136"
text int144 = codes "int144"
text int152 = codes "int152"
text int160 = codes "int160"
text int168 = codes "int168"
text int176 = codes "int176"
text int184 = codes "int184"
text int192 = codes "int192"
text int200 = codes "int200"
text int208 = codes "int208"
text int216 = codes "int216"
text int224 = codes "int224"
text int232 = codes "int232"
text int240 = codes "int240"
text int248 = codes "int248"
text int256 = codes "int256"
text uint8 = codes "uint8"
text uint16 = codes "uint16"
text uint24 = codes "uint24"
text uint32 = codes "uint32"
text uint40 = codes "uint40"
text uint48 = codes "uint48"
text uint56 = codes "uint56"
text uint64 = codes "uint64"
text uint72 = codes "uint72"
text uint80 = codes "uint80"
text uint88 = codes "uint88"
text uint96 = codes "uint96"
text uint104 = codes "uint104"
text uint112 = codes "uint112"
text uint120 = codes "uint120"
text uint128 = codes "uint128"
text uint136 = codes "uint136"
text uint144 = codes "uint144"
text uint152 = codes "uint152"
text uint160 = codes "uint160"
text uint168 = codes "uint168"
text uint176 = codes "uint176"
text uint184 = codes "uint184"
text uint192 = codes "uint192"
text uint200 = codes "uint200"
text uint208 = codes "uint208"
text uint216 = codes "uint216"
text uint224 = codes "uint224"
text uint232 = codes "uint232"
text uint240 = codes "uint240"
text uint248 = codes "uint248"
text uint256 = codes "uint256"
text bytes = codes "bytes"
text bytes32 = codes "bytes32"
text function = codes "function"
text address = codes "address"
