-- ===== src/Examples/Devices.antt =====
-- Accesses to the registers of simulator/src/register_file.cpp and of the devices.
use bit_computer_system.Base.{ℕ, ◌≡◌, arith, ok, ◌>>=◌, [], ◌∷◌, true}
use bit_computer_system.Mmio.{MmioFault}
use bit_computer_system.RegisterFile as RegisterFile
use bit_computer_system.RegisterFile.ReadWrite.{read-write}
use bit_computer_system.Uart as Uart
use bit_computer_system.Uart.Registers.{write_transmits}
use bit_computer_system.Timer as Timer
use bit_computer_system.Timer.Registers.{timer_read-write}
use bit_computer_system.Timer.Ticks.{ticks, read32-ticks}
use bit_computer_system.Gpio as Gpio
use bit_computer_system.Gpio.Registers.{gpio_read-write}
use bit_computer_system.DebugDevice as DebugDevice
use bit_computer_system.DebugDevice.Registers.{debug_read-write}
use bit_computer_system.Examples.Machines.{quiet_timer, quiet_gpio}

abbrev registers : RegisterFile.RegisterFile
registers = record { registers = λ _. 0 }

read-write_example : (RegisterFile.write registers 3 9 >>= λ r'. RegisterFile.read r' 3) ≡ ok 9
read-write_example = read-write registers 3 9 3 (omega arith) (omega arith)

abbrev console : Uart.Uart
console = record { tx_callback = true; transmitted = 72 ∷ [] }

write_transmits_example :
    (Uart.write32 console 0x20000000 0x169 ≡ (
      record { tx_callback = true; transmitted = 72 ∷ 105 ∷ [] },
      record { fault = MmioFault.none },
    ))
    × ((address : ℕ)
        → Uart.read32 (Uart.write32 console 0x20000000 0x169).0 address
          ≡ Uart.read32 console address)
write_transmits_example = write_transmits console 0 0x169 (omega arith)

timer_read-write_example :
    Timer.read32 (Timer.write32 quiet_timer 0x20000108 3).0 0x20000108
    ≡ record { value = 1; fault = MmioFault.none }
timer_read-write_example = timer_read-write quiet_timer 2 2 3 (omega arith) (omega arith)

gpio_read-write_example :
    Gpio.read32 (Gpio.write32 (Gpio.set_input quiet_gpio 5) 0x20000200 3).0 0x20000200
    ≡ record { value = 5; fault = MmioFault.none }
gpio_read-write_example = gpio_read-write quiet_gpio 5 0 0 3 (omega arith) (omega arith)

abbrev device : DebugDevice.DebugDevice
device = record { value = 4 }

debug_read-write_example :
    DebugDevice.read32 (DebugDevice.write32 device 0x20000300 6).0 0x20000300
    ≡ record { value = 6; fault = MmioFault.none }
debug_read-write_example = debug_read-write device 0 0 6 (omega arith) (omega arith)

read32-ticks_example :
    Timer.read32 (ticks 3 (record quiet_timer { enabled = true })) 0x20000100
    ≡ record { value = 3; fault = MmioFault.none }
read32-ticks_example =
    read32-ticks 3 (record quiet_timer { enabled = true }) 0 (omega arith) (omega arith)
