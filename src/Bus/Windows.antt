-- ===== src/Bus/Windows.antt =====
-- The four register windows of simulator/src/uart.cpp, timer.cpp, gpio.cpp and debug_device.cpp
-- under the contract by which simulator/src/bus.cpp uses them.
use bit_computer_system.Mmio.{IsWindow}
use bit_computer_system.Uart
use bit_computer_system.Uart.Registers.{uart-IsWindow}
use bit_computer_system.Timer
use bit_computer_system.Timer.Registers.{timer-IsWindow}
use bit_computer_system.Gpio
use bit_computer_system.Gpio.Registers.{gpio-IsWindow}
use bit_computer_system.DebugDevice
use bit_computer_system.DebugDevice.Registers.{debug-IsWindow}

-- On each of the four devices the address alone decides whether and how an access faults; a read
-- that faults gives zero and a write that faults changes nothing.
pub devices-IsWindow :
    IsWindow {Device = Uart.Uart} Uart.base_address Uart.last_address Uart.read32 Uart.write32
    × IsWindow {Device = Timer.Timer} Timer.base_address Timer.last_address Timer.read32
        Timer.write32
    × IsWindow {Device = Gpio.Gpio} Gpio.base_address Gpio.last_address Gpio.read32 Gpio.write32
    × IsWindow {Device = DebugDevice.DebugDevice} DebugDevice.base_address DebugDevice.last_address
        DebugDevice.read32 DebugDevice.write32
devices-IsWindow = (uart-IsWindow, timer-IsWindow, gpio-IsWindow, debug-IsWindow)
