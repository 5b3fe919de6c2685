-- ===== src/MsgType.antt =====
-- esphome.h, namespace MsgType: the ids of the ESPHome API's messages.
use homed_service_esphome.Prelude.{ℕ}

abbrev pub hello_request : ℕ
hello_request = 1

abbrev pub hello_response : ℕ
hello_response = 2

abbrev pub disconnect_request : ℕ
disconnect_request = 5

abbrev pub disconnect_response : ℕ
disconnect_response = 6

abbrev pub ping_request : ℕ
ping_request = 7

abbrev pub ping_response : ℕ
ping_response = 8

abbrev pub device_info_request : ℕ
device_info_request = 9

abbrev pub device_info_response : ℕ
device_info_response = 10

abbrev pub list_entities_request : ℕ
list_entities_request = 11

abbrev pub list_entities_binary : ℕ
list_entities_binary = 12

abbrev pub list_entities_cover : ℕ
list_entities_cover = 13

abbrev pub list_entities_light : ℕ
list_entities_light = 15

abbrev pub list_entities_sensor : ℕ
list_entities_sensor = 16

abbrev pub list_entities_switch : ℕ
list_entities_switch = 17

abbrev pub list_entities_text_sensor : ℕ
list_entities_text_sensor = 18

abbrev pub list_entities_done : ℕ
list_entities_done = 19

abbrev pub subscribe_states : ℕ
subscribe_states = 20

abbrev pub state_binary : ℕ
state_binary = 21

abbrev pub state_cover : ℕ
state_cover = 22

abbrev pub state_light : ℕ
state_light = 24

abbrev pub state_sensor : ℕ
state_sensor = 25

abbrev pub state_switch : ℕ
state_switch = 26

abbrev pub state_text_sensor : ℕ
state_text_sensor = 27

abbrev pub cover_command : ℕ
cover_command = 30

abbrev pub light_command : ℕ
light_command = 32

abbrev pub switch_command : ℕ
switch_command = 33

abbrev pub list_entities_climate : ℕ
list_entities_climate = 46

abbrev pub state_climate : ℕ
state_climate = 47

abbrev pub climate_command : ℕ
climate_command = 48

abbrev pub list_entities_number : ℕ
list_entities_number = 49

abbrev pub state_number : ℕ
state_number = 50

abbrev pub number_command : ℕ
number_command = 51

abbrev pub list_entities_select : ℕ
list_entities_select = 52

abbrev pub state_select : ℕ
state_select = 53

abbrev pub select_command : ℕ
select_command = 54

abbrev pub list_entities_lock : ℕ
list_entities_lock = 58

abbrev pub state_lock : ℕ
state_lock = 59

abbrev pub lock_command : ℕ
lock_command = 60

abbrev pub list_entities_button : ℕ
list_entities_button = 61

abbrev pub button_command : ℕ
button_command = 62
